-- ===== src/Registry/Zk/Events/Client.antt =====
-- listenEvent of zk.go for a client, whose registry watches the paths of its services.
use go_moa.Base.{
  Bool, true, false, ◌≡◌, refl, sym, ◌∙◌, subst, ◌⊎◌, inl, inr, Text, Option, some, List, [], ◌∷◌,
  if◌then◌else◌, All, any, has_infix, Bool-cases,
}
use go_moa.Zookeeper.{Conn, Ran, done}
use go_moa.Registry.Zk.{Json, ZkRegistry}
use go_moa.Registry.Zk.Index.{uri_of}
use go_moa.Registry.Zk.Index.Keys.{UnderRoot, service_path_of-UnderRoot, has_key}
use go_moa.Registry.Zk.Index.Opened.{Opens, Client, opened-Client, client_expiry}
use go_moa.Registry.Zk.Events.{
  Event, EventType, session, node_deleted, node_created, node_children_changed, other_type, is_lost,
  expire, children_changed, on_event, listen_event, listen_events,
}
use go_moa.Registry.Zk.Events.Heard.{
  Listened, Listened-refl, Listened-trans, Hears, node_change-Hears, children_changed-Hears,
}

module _ (conn : Conn) (json : Json) where
  open conn use {State}

  module _ (r : ZkRegistry) (m : r.server_model ≡ false) where
    -- The watchers of a client only ask for their watches again.
    expire-done :
        (ps : List Text) (s : State) → (s' : State) × (expire conn json ps r s ≡ done r s')
    unfolding expire
    expire-done [] s = (s, refl)
    expire-done (p ∷ ps) s =
        let (s1, e1) = client_expiry conn json r s m in
        let (s', e) = expire-done ps s1 in (s', rw (e1, expire) e)

    session-Hears :
        (About : Text → Type 0) (lost : Bool) (s : State)
        → Hears conn json About r (if lost then expire conn json r.watched r s else done r s)
    session-Hears About false s = (r, s, refl, Listened-refl conn json About r)
    session-Hears About true s =
        let (s', e) = expire-done r.watched s in (r, s', e, Listened-refl conn json About r)

    module _ (e : Event) (s : State) (uri : Text) (k : uri_of e.path ≡ some uri) where
      abbrev HearsIt : Ran State ZkRegistry → Type 0
      HearsIt = Hears conn json (λ key. uri_of e.path ≡ some key) r

      children-Hears : HearsIt (
          children_changed conn json r e.path
            (conn.children_w e.path s).0
            (conn.children_w e.path s).1)
      children-Hears =
          children_changed-Hears conn json e.path uri k r (conn.children_w e.path s).0
            (conn.children_w e.path s).1

      on_event-Hears : (t : EventType) → e.event_type ≡ t → HearsIt (on_event conn json e r s)
      unfolding on_event
      on_event-Hears session x =
          rw (x, on_event) (session-Hears (λ key. uri_of e.path ≡ some key) (is_lost e.state) s)
      on_event-Hears node_deleted x =
          rw (x, on_event)
            (node_change-Hears conn json e.path uri k r [] (conn.exists_w e.path s).1)
      on_event-Hears node_created x = rw (x, on_event) children-Hears
      on_event-Hears node_children_changed x = rw (x, on_event) children-Hears
      on_event-Hears other_type x = rw (x, on_event) (r, s, refl, Listened-refl conn json _ r)

  -- A client whose watched paths are those of services.
  abbrev IsClient : ZkRegistry → Type 0
  IsClient = Client conn json UnderRoot service_path_of-UnderRoot

  listen_event-Hears :
      (e : Event) (r : ZkRegistry) (s : State)
      → IsClient r
      → Hears conn json (λ key. uri_of e.path ≡ some key) r (listen_event conn json e r s)
  unfolding listen_event
  listen_event-Hears e r s (m, h) = elim (Bool-cases (any (λ k. has_infix e.path k) r.watched)) [
    | inr x ↦ (r, s, rw (x, listen_event) refl, Listened-refl conn json _ r)
    | inl x ↦
        let (uri, k) = has_key r.watched e.path h x in
        rw (x, listen_event) (on_event-Hears r m e s uri k e.event_type refl)
  ]

  -- One of the events is about the key.
  abbrev pub Concerns : List Event → Text → Type 0
  Concerns [] key = ⊥
  Concerns (e ∷ es) key = (uri_of e.path ≡ some key) ⊎ Concerns es key

  IsClient-Listened :
      (About : Text → Type 0) (r r' : ZkRegistry)
      → Listened conn json About r r'
      → IsClient r
      → IsClient r'
  IsClient-Listened About r r' l (m, h) =
      (l.same_mode ∙ m, subst (All UnderRoot) (sym l.same_watched) h)

  listen_events-Hears :
      (es : List Event) (r : ZkRegistry) (s : State)
      → IsClient r
      → Hears conn json (Concerns es) r (listen_events conn json es r s)
  unfolding listen_events
  listen_events-Hears [] r s c = (r, s, refl, Listened-refl conn json _ r)
  listen_events-Hears (e ∷ es) r s c = elim (Bool-cases r.is_close) [
    | inl x ↦ (r, s, simp (x, listen_events), Listened-refl conn json _ r)
    | inr x ↦
        let (r1, s1, k, l) = listen_event-Hears e r s c in
        let (r2, s2, k', l') = listen_events-Hears es r1 s1 (IsClient-Listened _ r r1 l c) in
        (
          r2,
          s2,
          simp (x, k, k', listen_events),
          Listened-trans conn json _ (Concerns es) r r1 r2 l l',
        )
  ]

  -- The loop of a client never panics, whatever events come: after any number of them its
  -- subscriptions are those that NewZkRegistry made, the entries of keys that no event was about are
  -- as they were, and every other entry is as it was or was read from the nodes of its key.
  pub listen_events-Listened :
      (connect : List Text → Option State) (reg_addr : Text) (service : List Text) (r : ZkRegistry)
      (s now : State) (es : List Event)
      → Opens conn json connect reg_addr service false r s
      → (r' : ZkRegistry) × (s' : State) × (listen_events conn json es r now ≡ done r' s')
        × Listened conn json (Concerns es) r r'
  listen_events-Listened connect reg_addr service r s now es o =
      listen_events-Hears es r now
        (opened-Client conn json UnderRoot service_path_of-UnderRoot connect reg_addr service r s o)
