-- ===== src/Registry/Zk/Index/Opened.antt =====
-- The registry that NewZkRegistry of registry_zk.go returns.
use go_moa.Base.{
  subst, Bool, true, false, ◌≡◌, ◌≢◌, refl, Text, Option, some, List, [], ◌∷◌, All, All-append, any,
  concat, text_eq, arith, Bool-cases, Option-cases, inl, inr, ap,
}
use go_moa.Zookeeper.{Conn, Ran, done, panicked, registe_watcher, new_zk_manager}
use go_moa.Registry.Zk.{Json, ZkRegistry}
use go_moa.Registry.Zk.Index.{
  subscribe, open_registry, started, new_zk_registry, on_session_expired, service_path_of,
  watch_all,
}

abbrev pub Named : Text → Type 0
Named path = path ≢ []

service_path_of-Named : (uri : Text) → Named (service_path_of uri)
unfolding concat
service_path_of-Named uri e = cc

registe_watcher-All :
    (P : Text → Type 0) (path : Text) (ps : List Text)
    → P path
    → All P ps
    → All P (registe_watcher path ps).1
unfolding registe_watcher
registe_watcher-All P path ps n h = elim (Bool-cases (any (text_eq path) ps)) [
  | inl e ↦ rw (e, registe_watcher) h
  | inr e ↦ rw (e, registe_watcher) (All-append P ps (path ∷ []) h (n, tt))
]

module _ (conn : Conn) (json : Json) where
  open conn use {State}

  module _ (P : Text → Type 0) (path_has : (uri : Text) → P (service_path_of uri)) where
    -- A client's registry, with a property of all the paths that it watches.
    abbrev pub Client : ZkRegistry → Type 0
    Client r = (r.server_model ≡ false) × All P r.watched

    subscribe-Client :
        (uris : List Text) (r : ZkRegistry) (s : State)
        → Client r
        → Client (subscribe conn json uris r s).0
    unfolding subscribe
    subscribe-Client [] r s h = h
    subscribe-Client (uri ∷ uris) r s (m, h) =
        elim (Option-cases (conn.children_w (service_path_of uri) s).0) [
          | inl e ↦ rw (e, subscribe) (subscribe-Client uris _ _ (m, next))
          | inr (names, e) ↦ rw (e, subscribe) (subscribe-Client uris _ _ (m, next))
        ]
      where
        next : All P (registe_watcher (service_path_of uri) r.watched).1
        next = registe_watcher-All P (service_path_of uri) r.watched (path_has uri) h

    open_registry-Client :
        (service : List Text) (s : State) → Client (open_registry conn json service false s).0
    unfolding open_registry
    open_registry-Client service s = subscribe-Client service _ s (refl, tt)

  open_registry-Named :
      (service : List Text) (server_model : Bool) (s : State)
      → All Named (open_registry conn json service server_model s).0.watched
  unfolding open_registry registe_watcher
  open_registry-Named service true s = ((λ e. cc), tt)
  open_registry-Named service false s =
      (open_registry-Client Named service_path_of-Named service s).1

  module _ (connect : List Text → Option State) (reg_addr : Text) (service : List Text)
      (server_model : Bool) (r : ZkRegistry) (s : State) where
    -- NewZkRegistry returns this registry and leaves the session in this state.
    abbrev pub Opens : Type 0
    Opens = new_zk_registry conn json connect reg_addr service server_model ≡ some (done r s)

    started_by :
        (m : Ran State Bool)
        → started conn json m service server_model ≡ done r s
        → (s0 : State) × (open_registry conn json service server_model s0 ≡ (r, s))
    unfolding started
    started_by (done b s0) e = (s0, cc)
    started_by (panicked s0) e = cc

    opened_by : Opens → (s0 : State) × (open_registry conn json service server_model s0 ≡ (r, s))
    unfolding new_zk_registry
    opened_by e = elim (Option-cases (new_zk_manager conn connect reg_addr)) [
      | inl k ↦ absurd (cc (rw (k, new_zk_registry) at e))
      | inr (m, k) ↦ started_by m (ground arith)
    ]

    pub watched-Named : Opens → All Named r.watched
    watched-Named e =
        let (s0, k) = opened_by e in
        rw⁻¹ (ap (λ o. o.0.watched) k) (open_registry-Named service server_model s0)

  pub opened-Client :
      (P : Text → Type 0) (path_has : (uri : Text) → P (service_path_of uri))
      (connect : List Text → Option State) (reg_addr : Text) (service : List Text) (r : ZkRegistry)
      (s : State)
      → Opens connect reg_addr service false r s
      → Client P path_has r
  opened-Client P path_has connect reg_addr service r s e =
      let (s0, k) = opened_by connect reg_addr service false r s e in
      subst (Client P path_has) (ap (λ o. o.0) k) (open_registry-Client P path_has service s0)

  pub client_expiry :
      (r : ZkRegistry) (s : State)
      → r.server_model ≡ false
      → (s' : State) × (on_session_expired conn json r s ≡ done true s')
  unfolding on_session_expired
  client_expiry r s m = (watch_all conn json r.service s, rw (m, on_session_expired) refl)

  pub opened_server :
      (connect : List Text → Option State) (reg_addr : Text) (service : List Text) (t : State)
      → new_zk_manager conn connect reg_addr ≡ some (done true t)
      → (r : ZkRegistry) × (new_zk_registry conn json connect reg_addr service true
          ≡ some (done r t))
  unfolding new_zk_registry started open_registry
  opened_server connect reg_addr service t e =
      ((open_registry conn json service true t).0, rw (e, new_zk_registry) refl)
