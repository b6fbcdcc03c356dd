-- ===== src/Registry/Center/Open.antt =====
-- The nodes of the keys of registry.go in ZooKeeper, and which of them a registration touches.
pub mod Kept
use go_moa.Base.{
  Bool, subst, ◌≡◌, ◌≢◌, refl, sym, ap, ◌∙◌, Text, Option, none, some, List, [], ◌∷◌, ◌++◌, ◌⊎◌,
  inl, inr, text_eq, text_eq_iff, All, arith, Lacks, concat, concat_two, concat_three, Bool-cases,
  Option-cases, true, false,
}
use mathlib.Core.List.{append_cancel_left, append_cancel_right}
use go_moa.Registry.{ServiceMeta, protocol}
use go_moa.Zookeeper.{Conn, zk_path_delimiter, zk_moa_root_path}
use go_moa.Registry.Zk.{Json, path_of, addr_path}
use go_moa.Registry.Zk.Session.{Node, Session}
use go_moa.Registry.Zk.Paths.{IsPart, join}
use go_moa.Registry.Zk.Create.{Along, NoEphemeral}
use go_moa.Registry.Zk.Register.{Sets}
use go_moa.Registry.Zk.Register.Anew.{CanRegister, Registered}

-- The node of a key's address.
abbrev pub node_path : Text → Text → Text
node_path host key = addr_path (path_of protocol key) host

node_path-injective : (host a b : Text) → node_path host a ≡ node_path host b → a ≡ b
unfolding addr_path path_of
node_path-injective host a b e =
    let x = concat (zk_moa_root_path ∷ zk_path_delimiter ∷ protocol ∷ []) in
    let below : path_of protocol a ++ (zk_path_delimiter ++ host)
        ≡ path_of protocol b ++ (zk_path_delimiter ++ host) =
      sym (concat_three (path_of protocol a) zk_path_delimiter host)
      ∙ e
      ∙ concat_three (path_of protocol b) zk_path_delimiter host in
    append_cancel_left x a b (
      sym (concat_two x a)
      ∙ append_cancel_right (path_of protocol a) (path_of protocol b) (zk_path_delimiter ++ host)
          below
      ∙ concat_two x b)

pub same_path :
    (host at key : Text) → text_eq (node_path host at) (node_path host key) ≡ text_eq at key
same_path host at key = elim (Bool-cases (text_eq at key)) [
  | inl t ↦ (text_eq_iff _ _).1 (ap (node_path host) ((text_eq_iff at key).0 t)) ∙ sym t
  | inr f ↦ elim (Bool-cases (text_eq (node_path host at) (node_path host key))) [
    | inl t ↦
        absurd
          (cc ((text_eq_iff at key).1 (node_path-injective host at key ((text_eq_iff _ _).0 t)), f))
    | inr g ↦ g ∙ sym f
  ]
]

Lacks-middle : (a p : Text) → ¬ Lacks b'/' (a ++ (b'/' ∷ p))
Lacks-middle [] p h = h.0 refl
Lacks-middle (c ∷ a) p h = Lacks-middle a p h.1

tail_of : Text → Text
tail_of [] = []
tail_of (c ∷ t) = t

-- What is behind the last '/' is the same in the same text.
behind_last :
    (a b p q : Text) → Lacks b'/' p → Lacks b'/' q → a ++ (b'/' ∷ p) ≡ b ++ (b'/' ∷ q) → p ≡ q
unfolding tail_of
behind_last [] [] p q h k e = ap tail_of e
behind_last [] (c ∷ b) p q h k e = absurd (Lacks-middle b q (subst (Lacks b'/') (ap tail_of e) h))
behind_last (c ∷ a) [] p q h k e =
    absurd (Lacks-middle a p (subst (Lacks b'/') (sym (ap tail_of e)) k))
behind_last (c ∷ a) (d ∷ b) p q h k e = behind_last a b p q h k (ap tail_of e)

last_of-addr_path :
    (a b p q : Text) → Lacks b'/' p → Lacks b'/' q → addr_path a p ≡ addr_path b q → p ≡ q
unfolding addr_path
last_of-addr_path a b p q h k e =
    behind_last a b p q h k
      (sym (concat_three a zk_path_delimiter p) ∙ e ∙ concat_three b zk_path_delimiter q)

module _ (conn : Conn) (json : Json) (N : Session conn) (host : Text) where
  open N use {node}

  -- An address of the host is not on the way to a path none of whose parts is the host.
  not_on_way :
      (at dir : Text) (ps : List Text)
      → Lacks b'/' host
      → All IsPart ps
      → All (λ p. p ≢ host) ps
      → ¬ Along conn N dir ps (addr_path at host)
  not_on_way at dir [] l h ne a = a
  not_on_way at dir (p ∷ ps) l (h, hs) (ne, nes) (inl e) =
      ne (sym (last_of-addr_path at dir host p l h.1 e))
  not_on_way at dir (p ∷ ps) l (h, hs) (ne, nes) (inr a) =
      not_on_way at (addr_path dir p) ps l hs nes a

  -- RegisteService can register at the key's address, and no part of the path is the host.
  pub record IsOpenAt (key : Text) (s : conn.State) : Type 0 where
    pub path_parts : List Text
    pub is_path : path_of protocol key ≡ join path_parts
    pub no_host : All (λ p. p ≢ host) path_parts
    pub can_register : CanRegister conn json N path_parts host s
