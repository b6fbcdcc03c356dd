-- ===== src/Zookeeper.antt =====
-- zk.go: a session of ZooKeeper, which is a parameter, and the creation of a path. The texts of the
-- panics are left out.
use go_moa.Base.{
  Bool, true, false, Text, codes, Option, none, some, List, [], ◌∷◌, ◌||◌, if◌then◌else◌, any, ◌++◌,
  is_empty, text_eq, concat, has_suffix, split,
}

-- What the code uses of zk.Conn. Every call gives its result, without one where it is an error, and
-- the state of the session and the nodes behind it.
pub record Conn : Type 1 where
  pub State : Type 0
  pub exists : Text → State → Option Bool × State
  -- The path, the data and whether the node is ephemeral.
  pub create : Text → Text → Bool → State → Bool × State
  pub delete : Text → State → Bool × State
  pub children_w : Text → State → Option (List Text) × State
  pub get_w : Text → State → Option Text × State
  pub exists_w : Text → State → Option Bool × State
  pub close : State → State

-- A function that returns or panics, and the state behind it.
pub data Ran (S A : Type 0) : Type 0 where
  done : A → S → Ran S A
  panicked : S → Ran S A

-- The call, and what follows it if it returns.
unfoldable pub and_then : {S A B : Type 0} → Ran S A → (A → S → Ran S B) → Ran S B
and_then (done a s) next = next a s
and_then (panicked s) next = panicked s

abbrev pub zk_root : Text
zk_root = codes "/"

abbrev pub zk_path_delimiter : Text
zk_path_delimiter = codes "/"

abbrev pub zk_moa_root_path : Text
zk_moa_root_path = codes "/moa/service"

-- The path of the next part.
unfoldable pub extend : Text → Text → Text
extend absolute_path path = concat (
    (if has_suffix absolute_path zk_path_delimiter
      then absolute_path
      else concat (absolute_path ∷ zk_path_delimiter ∷ []))
    ∷ path
    ∷ [])

-- The paths that have a watcher, and whether this one had none.
unfoldable pub registe_watcher : Text → List Text → Bool × List Text
registe_watcher rootpath watchers =
    if any (text_eq rootpath) watchers then (false, watchers) else (true, watchers ++ rootpath ∷ [])

module _ (conn : Conn) where
  open conn use {State, exists, create, close}

  -- The loop over the parts of the path; its result is whether the error is nil.
  unfoldable pub create_parts : List Text → Text → State → Ran State Bool
  unfolding extend
  create_parts [] absolute_path s = done true s
  create_parts (path ∷ paths) absolute_path s = elim (is_empty path || text_eq path zk_root) [
    | true ↦ create_parts paths absolute_path s
    | false ↦
        let next = extend absolute_path path in
        let (flag, s1) = exists next s in
        elim flag [
          | none ↦ done false s1
          | some there ↦ elim there [
            | true ↦ create_parts paths next s1
            | false ↦
                let (ok, s2) = create next [] false s1 in
                elim ok [ true ↦ create_parts paths next s2 | false ↦ panicked (close s2) ]
          ]
        ]
  ]

  unfoldable pub create_node : Text → State → Ran State Bool
  unfolding create_parts
  create_node service_path s = create_parts (split b'/' service_path) zk_root s

  -- NewZKManager and Start; `none` is the panic for a connection that fails. The error of the
  -- creation is not looked at.
  unfoldable pub new_zk_manager : (List Text → Option State) → Text → Option (Ran State Bool)
  unfolding create_node
  new_zk_manager connect zkhosts =
      elim (connect (split b',' (if is_empty zkhosts then codes "localhost:2181" else zkhosts))) [
        | none ↦ none
        | some ss ↦
            some (create_node (concat (zk_moa_root_path ∷ zk_path_delimiter ∷ codes "v1" ∷ [])) ss)
      ]
