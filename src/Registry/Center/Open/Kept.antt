-- ===== src/Registry/Center/Open/Kept.antt =====
-- What a registration of registry.go, or its end, leaves of the nodes of other keys.
use go_moa.Base.{
  Bool, subst, ◌≡◌, ◌≢◌, refl, sym, ap, ◌∙◌, Text, Option, none, some, List, [], ◌∷◌, ◌⊎◌, inl, inr,
  text_eq, text_eq_iff, arith, Bool-cases, Option-cases, true, false,
}
use go_moa.Registry.{ServiceMeta, protocol}
use go_moa.Zookeeper.{Conn}
use go_moa.Registry.Zk.{Json, path_of, addr_path}
use go_moa.Registry.Zk.Session.{Node, Session}
use go_moa.Registry.Zk.Paths.{join}
use go_moa.Registry.Zk.Create.{Along, NoEphemeral}
use go_moa.Registry.Zk.Register.{Sets}
use go_moa.Registry.Zk.Register.Anew.{Registered}
use go_moa.Registry.Center.Open.{node_path, not_on_way, IsOpenAt}

module _ (conn : Conn) (json : Json) (N : Session conn) (host : Text) where
  open N use {node}

  abbrev OpenAt : Text → conn.State → Type 0
  OpenAt = IsOpenAt conn json N host

  -- A step that changes the node of a key's address, to an ephemeral one or none, makes nodes that are
  -- not ephemeral and are not addresses of the host, and leaves the others.
  pub record Touches (at : Text) (s s' : conn.State) : Type 0 where
    pub own : (a : Node) → node (node_path host at) s' ≡ some a → a.ephemeral ≡ true
    pub others_stay :
        (q : Text) (n : Node) → q ≢ node_path host at → node q s ≡ some n → node q s' ≡ some n
    pub new :
        (q : Text) (n : Node)
        → q ≢ node_path host at
        → node q s' ≡ some n
        → (node q s ≡ some n) ⊎ (((key : Text) → q ≢ node_path host key) × (n.ephemeral ≡ false))

  not_address :
      {key : Text} {s : conn.State} (o : OpenAt key s) (q : Text)
      → Along conn N [] o.path_parts q
      → (at : Text) → q ≢ node_path host at
  not_address o q along at e =
      not_on_way conn json N host (path_of protocol at) [] o.path_parts o.can_register.one_part
        o.can_register.parts o.no_host (subst (Along conn N [] o.path_parts) e along)

  pub Touches-Registered :
      (at : Text) (s s' : conn.State) (meta : ServiceMeta) (o : OpenAt at s)
      → Registered conn json N o.path_parts (addr_path (join o.path_parts) host) meta s s'
      → Touches at s s'
  Touches-Registered at s s' meta o r =
      let same : node_path host at ≡ addr_path (join o.path_parts) host =
        ap (λ p. addr_path p host) o.is_path in
      record {
        own =
            λ a e. sym (ap is_ephemeral (sym r.registered ∙ (ap (λ p. node p s') (sym same) ∙ e)));
        others_stay = λ q n ne e. r.others_stay q n (λ k. ne (k ∙ sym same)) e;
        new = λ q n ne e. elim (r.new_on_way q n (λ k. ne (k ∙ sym same)) e) [
          | inl k ↦ inl k
          | inr (along, p) ↦ inr (not_address o q along, p)
        ];
      }
    where
      is_ephemeral : Option Node → Bool
      is_ephemeral none = true
      is_ephemeral (some n) = n.ephemeral

  pub Touches-Sets :
      (at : Text) (s s' : conn.State)
      → Sets conn json N (node_path host at) none s s'
      → Touches at s s'
  Touches-Sets at s s' sets = record {
    own = λ a e.
        ground
          (arith, sets (node_path host at), e, text_eq_iff (node_path host at) (node_path host at));
    others_stay = λ q n ne e. same q ne ∙ e;
    new = λ q n ne e. inl (sym (same q ne) ∙ e);
  }
    where
      same : (q : Text) → q ≢ node_path host at → node q s' ≡ node q s
      same q ne = sets q ∙ ground (arith, ne, text_eq_iff (node_path host at) q)

  NoEphemeral-Touches :
      (at dir : Text) (ps : List Text) (s s' : conn.State)
      → Touches at s s'
      → ((q : Text) → Along conn N dir ps q → q ≢ node_path host at)
      → NoEphemeral conn N dir ps s
      → NoEphemeral conn N dir ps s'
  NoEphemeral-Touches at dir [] s s' t apart h = tt
  NoEphemeral-Touches at dir (p ∷ ps) s s' t apart (h, hs) = (
    (λ n e. elim (t.new (addr_path dir p) n (apart (addr_path dir p) (inl refl)) e) [
      | inl k ↦ h n k
      | inr k ↦ k.1
    ]),
    NoEphemeral-Touches at (addr_path dir p) ps s s' t (λ q a. apart q (inr a)) hs,
  )

  -- What is at the address of another key stays.
  pub same_address :
      (at key : Text) (s s' : conn.State)
      → Touches at s s'
      → node_path host key ≢ node_path host at
      → node (node_path host key) s' ≡ node (node_path host key) s
  same_address at key s s' t ne = elim (Option-cases (node (node_path host key) s')) [
    | inr (n, e) ↦ elim (t.new (node_path host key) n ne e) [
      | inl k ↦ e ∙ sym k
      | inr k ↦ absurd (k.0 key refl)
    ]
    | inl e ↦ elim (Option-cases (node (node_path host key) s)) [
      | inl k ↦ e ∙ sym k
      | inr (n, k) ↦ absurd (cc (t.others_stay (node_path host key) n ne k, e))
    ]
  ]

  -- Open keys stay open.
  pub stays_open :
      (at key : Text) (s s' : conn.State) → Touches at s s' → OpenAt key s → OpenAt key s'
  stays_open at key s s' t o = record {
    path_parts = o.path_parts;
    is_path = o.is_path;
    no_host = o.no_host;
    can_register = record {
      has_part = o.can_register.has_part;
      parts = o.can_register.parts;
      persistent =
          NoEphemeral-Touches at [] o.path_parts s s' t (λ q along. not_address o q along at)
            o.can_register.persistent;
      one_part = o.can_register.one_part;
      address_free = λ a e. subst Free same still a e;
    };
  }
    where
      Free : Text → Type 0
      Free p = (a : Node) → node p s' ≡ some a → a.ephemeral ≡ true

      same : node_path host key ≡ addr_path (join o.path_parts) host
      same = ap (λ p. addr_path p host) o.is_path

      still : Free (node_path host key)
      still a e = elim (Bool-cases (text_eq (node_path host key) (node_path host at))) [
        | inl k ↦ t.own a (ap (λ p. node p s') (sym ((text_eq_iff _ _).0 k)) ∙ e)
        | inr k ↦ o.can_register.address_free a (
            ap (λ p. node p s) (sym same)
            ∙ (sym (same_address at key s s' t (λ x. cc ((text_eq_iff _ _).1 x, k))) ∙ e))
      ]
