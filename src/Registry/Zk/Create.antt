-- ===== src/Registry/Zk/Create.antt =====
-- What CreateNode of zk.go makes on a connected session.
use go_moa.Base.{
  Bool, true, false, ◌≡◌, ◌≢◌, refl, sym, ap, ◌∙◌, Text, Option, none, some, List, [], ◌∷◌, ◌++◌,
  ◌⊎◌, inl, inr, All, Lacks, text_eq, text_eq_iff, text_eq_refl, subst, has_suffix, Option-cases,
  Bool-cases, append-nil,
}
use go_moa.Zookeeper.{
  Conn, Ran, done, zk_root, zk_path_delimiter, extend, create_parts, create_node,
}
use go_moa.Registry.Zk.{addr_path}
use go_moa.Registry.Zk.Session.{Node, Session}
use go_moa.Registry.Zk.Paths.{
  IsPart, join, split-join, extend-dir_of, below-ends, dir_of, dir_of-addr_path, is_kept,
  append-join,
}

abbrev ephemeral_of : Option Node → Bool
ephemeral_of none = false
ephemeral_of (some n) = n.ephemeral

module _ (conn : Conn) (N : Session conn) where
  open N use {node}

  -- Nodes stay as they are, and new ones are on certain paths and not ephemeral.
  pub record Grows (Allowed : Text → Type 0) (s s' : conn.State) : Type 0 where
    pub stays : (q : Text) (n : Node) → node q s ≡ some n → node q s' ≡ some n
    pub new :
        (q : Text) (n : Node)
        → node q s' ≡ some n
        → (node q s ≡ some n) ⊎ (Allowed q × (n.ephemeral ≡ false))

  -- The paths from a directory down.
  abbrev pub Along : Text → List Text → Text → Type 0
  Along dir [] q = ⊥
  Along dir (p ∷ ps) q = (q ≡ addr_path dir p) ⊎ Along (addr_path dir p) ps q

  -- None of the paths from a directory down is an ephemeral node.
  abbrev pub NoEphemeral : Text → List Text → conn.State → Type 0
  NoEphemeral dir [] s = Unit
  NoEphemeral dir (p ∷ ps) s =
      ((n : Node) → node (addr_path dir p) s ≡ some n → n.ephemeral ≡ false)
      × NoEphemeral (addr_path dir p) ps s

  -- The root, or a node that is there and not ephemeral.
  abbrev pub IsDir : Text → conn.State → Type 0
  IsDir [] s = Unit
  IsDir (c ∷ p) s = (n : Node) × (node (c ∷ p) s ≡ some n) × (n.ephemeral ≡ false)

  abbrev pub last_dir : Text → List Text → Text
  last_dir dir [] = dir
  last_dir dir (p ∷ ps) = last_dir (addr_path dir p) ps

  IsDir-node :
      (dir : Text) (s : conn.State) (n : Node)
      → node dir s ≡ some n
      → n.ephemeral ≡ false
      → IsDir dir s
  IsDir-node [] s n e k = tt
  IsDir-node (c ∷ dir) s n e k = (n, e, k)

  can_create :
      (dir p : Text) (s : conn.State)
      → IsDir dir s
      → Lacks b'/' p
      → node (addr_path dir p) s ≡ none
      → (conn.create (addr_path dir p) [] false s).0 ≡ true
  can_create [] p s h l f = N.create_ok_root p [] false s l f
  can_create (c ∷ dir) p s (n, e, k) l f = N.create_ok (c ∷ dir) p [] false s n e k l f

  module _ (p : Text) (ps : List Text) (absolute_path : Text) (s : conn.State) (h : IsPart p) where
    -- What the loop does at its next path, where that is there and where it is not.
    abbrev There : Text → Type 0
    There next =
        (conn.exists next s).0 ≡ some true
        → create_parts conn (p ∷ ps) absolute_path s
          ≡ create_parts conn ps next (conn.exists next s).1

    abbrev Made : Text → Type 0
    Made next =
        (conn.exists next s).0 ≡ some false
        → (conn.create next [] false (conn.exists next s).1).0 ≡ true
        → create_parts conn (p ∷ ps) absolute_path s
          ≡ create_parts conn ps next (conn.create next [] false (conn.exists next s).1).1

    step-There : There (extend absolute_path p)
    unfolding create_parts
    step-There e = rw (is_kept p h, e, create_parts) refl

    step-Made : Made (extend absolute_path p)
    unfolding create_parts
    step-Made e k = rw (is_kept p h, e, k, create_parts) refl

  skip_empty :
      (ps : List Text) (absolute_path : Text) (s : conn.State)
      → create_parts conn ([] ∷ ps) absolute_path s ≡ create_parts conn ps absolute_path s
  unfolding create_parts
  skip_empty ps absolute_path s = refl

  last_dir-join : (dir : Text) (ps : List Text) → last_dir dir ps ≡ dir ++ join ps
  last_dir-join dir [] = sym (append-nil dir)
  last_dir-join dir (p ∷ ps) = last_dir-join (addr_path dir p) ps ∙ append-join dir p ps

  module _ (Allowed : Text → Type 0) where
    Grows-refl : (s : conn.State) → Grows Allowed s s
    Grows-refl s = record { stays = λ q n e. e; new = λ q n e. inl e }

    pub Grows-trans :
        (s t u : conn.State) → Grows Allowed s t → Grows Allowed t u → Grows Allowed s u
    Grows-trans s t u g h = record {
      stays = λ q n e. h.stays q n (g.stays q n e);
      new = λ q n e. elim (h.new q n e) [ inl k ↦ g.new q n k | inr k ↦ inr k ];
    }

    pub Grows-exists : (p : Text) (s : conn.State) → Grows Allowed s (conn.exists p s).1
    Grows-exists p s = record {
      stays = λ q n e. N.exists_keeps p q s ∙ e;
      new = λ q n e. inl (sym (N.exists_keeps p q s) ∙ e);
    }

    Grows-create :
        (p content : Text) (s : conn.State)
        → Allowed p
        → node p s ≡ none
        → (conn.create p content false s).0 ≡ true
        → Grows Allowed s (conn.create p content false s).1
    Grows-create p content s a f k = record {
      stays = λ q n e. elim (Bool-cases (text_eq p q)) [
        | inl t ↦ absurd (cc (f, e, (text_eq_iff p q).0 t))
        | inr x ↦ N.create-node p q content false s k ∙ rw x e
      ];
      new = λ q n e. elim (Bool-cases (text_eq p q)) [
        | inl t ↦ inr (
          subst Allowed ((text_eq_iff p q).0 t) a,
          sym (ap ephemeral_of (sym (rw t at (N.create-node p q content false s k)) ∙ e)),
        )
        | inr x ↦ inl (sym (rw x at (N.create-node p q content false s k)) ∙ e)
      ];
    }

    pub NoEphemeral-Grows :
        (dir : Text) (ps : List Text) (s t : conn.State)
        → Grows Allowed s t
        → NoEphemeral dir ps s
        → NoEphemeral dir ps t
    NoEphemeral-Grows dir [] s t g h = tt
    NoEphemeral-Grows dir (p ∷ ps) s t g (h, hs) = (
      (λ n e. elim (g.new (addr_path dir p) n e) [ inl k ↦ h n k | inr k ↦ k.1 ]),
      NoEphemeral-Grows (addr_path dir p) ps s t g hs,
    )

    IsDir-Grows : (dir : Text) (s t : conn.State) → Grows Allowed s t → IsDir dir s → IsDir dir t
    IsDir-Grows [] s t g h = tt
    IsDir-Grows (c ∷ dir) s t g (n, e, k) = (n, g.stays (c ∷ dir) n e, k)

    -- The loop makes its last directory.
    abbrev Makes : Text → List Text → conn.State → Ran conn.State Bool → Type 0
    Makes dir ps s ran =
        (t : conn.State) × (ran ≡ done true t) × Grows Allowed s t × IsDir (last_dir dir ps) t

    Makes-Grows :
        (dir : Text) (ps : List Text) (s t : conn.State) (ran : Ran conn.State Bool)
        → Grows Allowed s t
        → Makes dir ps t ran
        → Makes dir ps s ran
    Makes-Grows dir ps s t ran g (u, e, h, d) = (u, e, Grows-trans s t u g h, d)

    descend :
        (dir p : Text) (ps : List Text) (s t : conn.State)
        → Grows Allowed s t
        → Makes (addr_path dir p) ps t (create_parts conn ps (dir_of (addr_path dir p)) t)
        → Makes dir (p ∷ ps) s (create_parts conn ps (addr_path dir p) t)
    descend dir p ps s t g (u, e, h, d) = (
      u,
      ap (λ a. create_parts conn ps a t) (sym (dir_of-addr_path dir p)) ∙ e,
      Grows-trans s t u g h,
      d,
    )

    create_parts-Makes :
        (ps : List Text) (dir : Text) (s : conn.State)
        → IsDir dir s
        → has_suffix dir zk_path_delimiter ≡ false
        → All IsPart ps
        → NoEphemeral dir ps s
        → ((q : Text) → Along dir ps q → Allowed q)
        → Makes dir ps s (create_parts conn ps (dir_of dir) s)
    create_parts-Makes [] dir s d e h f allow = (s, unfold create_parts in refl, Grows-refl s, d)
    create_parts-Makes (p ∷ ps) dir s d e (h, hs) (f, fs) allow =
        let go : (t : conn.State)
            → Grows Allowed s t
            → IsDir path t
            → Makes dir (p ∷ ps) s (create_parts conn ps path t) =
          λ t k d'. descend dir p ps s t k (
            create_parts-Makes ps path t d' (below-ends dir p h) hs
              (NoEphemeral-Grows path ps s t k fs) (λ q a. allow q (inr a))) in
        elim (Option-cases (node path s)) [
          | inr (n, k) ↦
              let there =
                subst (There p ps (dir_of dir) s h) (extend-dir_of dir p e)
                  (step-There p ps (dir_of dir) s h) (N.exists-node path s ∙ rw k refl) in
              subst (Makes dir (p ∷ ps) s) (sym there)
                (go s1 g (IsDir-node path s1 n (g.stays path n k) (f n k)))
          | inl k ↦
              let ok =
                can_create dir p s1 (IsDir-Grows dir s s1 g d) h.1
                  (N.exists_keeps path path s ∙ k) in
              let made =
                subst (Made p ps (dir_of dir) s h) (extend-dir_of dir p e)
                  (step-Made p ps (dir_of dir) s h) (N.exists-node path s ∙ rw k refl) ok in
              let s2 = (conn.create path [] false s1).1 in
              let g2 = Grows-trans s s1 s2 g (
                Grows-create path [] s1 (allow path (inl refl)) (N.exists_keeps path path s ∙ k)
                  ok) in
              subst (Makes dir (p ∷ ps) s) (sym made) (
                go s2 g2 (
                  IsDir-node path s2 (record { content = []; ephemeral = false })
                    (N.create-node path path [] false s1 ok ∙ rw (text_eq_refl path) refl) refl))
        ]
      where
        path : Text
        path = addr_path dir p

        s1 : conn.State
        s1 = (conn.exists path s).1

        g : Grows Allowed s s1
        g = Grows-exists path s

  -- On a connected session, for a path of at least one part none of whose prefixes is an ephemeral
  -- node: CreateNode succeeds, the node of the path is there and not ephemeral after it, nodes stay
  -- as they are, and what it makes are prefixes of the path, and not ephemeral.
  pub create_node-Grows :
      (ps : List Text) (s : conn.State)
      → ps ≢ []
      → All IsPart ps
      → NoEphemeral [] ps s
      → (t : conn.State) × (create_node conn (join ps) s ≡ done true t)
        × Grows (Along [] ps) s t
        × ((n : Node) × (node (join ps) t ≡ some n) × (n.ephemeral ≡ false))
  unfolding create_node has_suffix text_eq
  create_node-Grows [] s e h f = absurd (e refl)
  create_node-Grows (p ∷ ps) s e h f =
      let (t, k, g, d) =
        create_parts-Makes (Along [] (p ∷ ps)) (p ∷ ps) [] s tt refl h f (λ q a. a) in
      (
        t,
        ap (λ r. create_parts conn r zk_root s) (split-join (p ∷ ps) e h)
            ∙ (skip_empty (p ∷ ps) zk_root s ∙ k),
        g,
        subst (λ q. IsDir q t) (last_dir-join [] (p ∷ ps)) d,
      )
