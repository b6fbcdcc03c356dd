-- ===== src/Registry/Zk/Events/Heard.antt =====
-- What a round of listenEvent of zk.go leaves of the index of registry_zk.go.
use go_moa.Base.{
  false, ◌≡◌, refl, ap, ◌∙◌, subst, ◌⊎◌, inl, inr, Text, Option, none, some, List, sort_strings,
  lookup, insert, text_eq, text_eq_iff, lookup-insert, lookup-insert_self, Bool-cases,
}
use go_moa.Registry.{ServiceMeta}
use go_moa.Zookeeper.{Conn, Ran, done}
use go_moa.Registry.Zk.{Json, ZkRegistry, pull_children_data}
use go_moa.Registry.Zk.Index.{uri_of, need_change, node_change}
use go_moa.Registry.Zk.Events.{children_changed}

module _ (conn : Conn) (json : Json) where
  open conn use {State}

  -- The key's entry is what a pull of children of a path with this key gave.
  abbrev pub Read : ZkRegistry → Text → Type 0
  Read r key =
      (path : Text) × (names : List Text) × (s : State) × (uri_of path ≡ some key)
      × (lookup key r.uri2_services
          ≡ some (pull_children_data conn json path key (sort_strings names) s).0)

  -- A registry after events: its subscriptions are as before; the entries of keys that no event was
  -- about are as before, and every entry is as before or was read from the nodes.
  pub record Listened (About : Text → Type 0) (r r' : ZkRegistry) : Type 0 where
    pub same_service : r'.service ≡ r.service
    pub same_watched : r'.watched ≡ r.watched
    pub same_mode : r'.server_model ≡ r.server_model
    pub same_close : r'.is_close ≡ r.is_close
    pub untouched :
        (key : Text) → ¬ About key → lookup key r'.uri2_services ≡ lookup key r.uri2_services
    pub entries :
        (key : Text) → (lookup key r'.uri2_services ≡ lookup key r.uri2_services) ⊎ Read r' key

  pub Listened-refl : (About : Text → Type 0) (r : ZkRegistry) → Listened About r r
  Listened-refl About r = record {
    same_service = refl;
    same_watched = refl;
    same_mode = refl;
    same_close = refl;
    untouched = λ key n. refl;
    entries = λ key. inl refl;
  }

  entries_trans :
      (r t u : ZkRegistry) (key : Text)
      → (lookup key t.uri2_services ≡ lookup key r.uri2_services) ⊎ Read t key
      → (lookup key u.uri2_services ≡ lookup key t.uri2_services) ⊎ Read u key
      → (lookup key u.uri2_services ≡ lookup key r.uri2_services) ⊎ Read u key
  entries_trans r t u key a (inr b) = inr b
  entries_trans r t u key (inl a) (inl b) = inl (b ∙ a)
  entries_trans r t u key (inr (path, names, s, e, k)) (inl b) = inr (path, names, s, e, b ∙ k)

  pub Listened-trans :
      (A B : Text → Type 0) (r t u : ZkRegistry)
      → Listened A r t
      → Listened B t u
      → Listened (λ key. A key ⊎ B key) r u
  Listened-trans A B r t u g h = record {
    same_service = h.same_service ∙ g.same_service;
    same_watched = h.same_watched ∙ g.same_watched;
    same_mode = h.same_mode ∙ g.same_mode;
    same_close = h.same_close ∙ g.same_close;
    untouched = λ key n. h.untouched key (λ b. n (inr b)) ∙ g.untouched key (λ a. n (inl a));
    entries = λ key. entries_trans r t u key (g.entries key) (h.entries key);
  }

  -- It ends in such a registry, and not in a panic.
  abbrev pub Hears : (Text → Type 0) → ZkRegistry → Ran State ZkRegistry → Type 0
  Hears About r ran = (r' : ZkRegistry) × (s' : State) × (ran ≡ done r' s') × Listened About r r'

  module _ (path uri : Text) (k : uri_of path ≡ some uri) (r : ZkRegistry) where
    abbrev pub OfPath : Text → Type 0
    OfPath key = uri_of path ≡ some key

    other_entry :
        (metas : List ServiceMeta) (key : Text)
        → text_eq uri key ≡ false
        → lookup key (insert uri metas r.uri2_services) ≡ lookup key r.uri2_services
    other_entry metas key e = lookup-insert uri key metas r.uri2_services ∙ rw e refl

    Listened-insert :
        (names : List Text) (s : State)
        → Listened OfPath r (record r {
          uri2_services =
              insert uri
                (pull_children_data conn json path uri (sort_strings names) s).0
                r.uri2_services;
        })
    Listened-insert names s = record {
      same_service = refl;
      same_watched = refl;
      same_mode = refl;
      same_close = refl;
      untouched = λ key n. elim (Bool-cases (text_eq uri key)) [
        | inl e ↦ absurd (n (k ∙ ap some ((text_eq_iff uri key).0 e)))
        | inr e ↦ other_entry metas key e
      ];
      entries = λ key. elim (Bool-cases (text_eq uri key)) [
        | inl e ↦ inr (
            subst (Read r1) ((text_eq_iff uri key).0 e)
              (path, names, s, k, lookup-insert_self uri metas r.uri2_services))
        | inr e ↦ inl (other_entry metas key e)
      ];
    }
      where
        metas : List ServiceMeta
        metas = (pull_children_data conn json path uri (sort_strings names) s).0

        r1 : ZkRegistry
        r1 = record r { uri2_services = insert uri metas r.uri2_services }

    pub node_change-Hears :
        (addrs : List Text) (s : State) → Hears OfPath r (node_change conn json r path addrs s)
    unfolding node_change
    node_change-Hears addrs s =
        elim (Bool-cases (need_change (lookup uri r.uri2_services) (sort_strings addrs))) [
          | inr c ↦ (r, s, rw (k, c, node_change) refl, Listened-refl OfPath r)
          | inl c ↦
              let (metas, s1) = pull_children_data conn json path uri (sort_strings addrs) s in
              (
                record r { uri2_services = insert uri metas r.uri2_services },
                s1,
                rw (k, c, node_change) refl,
                Listened-insert addrs s,
              )
        ]

    pub children_changed-Hears :
        (names : Option (List Text)) (s : State)
        → Hears OfPath r (children_changed conn json r path names s)
    unfolding children_changed
    children_changed-Hears none s = (r, s, refl, Listened-refl OfPath r)
    children_changed-Hears (some names) s = node_change-Hears names s
