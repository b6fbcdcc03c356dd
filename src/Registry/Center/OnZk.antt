-- ===== src/Registry/Center/OnZk.antt =====
-- The registry of registry_zk.go as one that the center of registry.go publishes in.
use go_moa.Base.{
  subst, text_eq_refl, Bool, true, ◌≡◌, refl, sym, ap, ◌∙◌, Text, Option, none, some, List,
  if◌then◌else◌, text_eq, text_eq_iff, All, Bool-cases, inl, inr,
}
use go_moa.Registry.{ServiceMeta, protocol}
use go_moa.Registry.Uri.{build_service_uri}
use go_moa.Zookeeper.{Conn, Ran, done}
use go_moa.Registry.Zk.{Json, ZkRegistry, addr_path}
use go_moa.Registry.Zk.Session.{Node, Session}
use go_moa.Registry.Zk.Register.{un_registe_service_open}
use go_moa.Registry.Zk.Register.Anew.{registe_service-Registered}
use go_moa.Registry.Center.Open.{node_path, same_path, IsOpenAt}
use go_moa.Registry.Center.Open.Kept.{
  Touches, Touches-Registered, Touches-Sets, same_address, stays_open,
}
use go_moa.Stat.{Meters}
use go_moa.Proxy.{Service}
use go_moa.Registry.Center.Publish.{CanPublish, IsDistinct, registe_all_services-published}
use go_moa.Registry.Center.{
  ConfigCenter, registe_all_services, published_meta, Backing, zk_registry, file_registry,
  no_registry, calls, with_registry, with_answer,
}
use go_moa.Registry.Center.Contract.{Publishes}

module _ (conn : Conn) (json : Json) (N : Session conn) (host : Text) where
  open N use {node}

  read : Option Node → Option ServiceMeta
  read none = none
  read (some n) = json.unmarshal n.content

  -- What the node of a key reads as.
  pub published_in : Text → Backing conn.State → Option ServiceMeta
  published_in key (zk_registry r s) = read (node (node_path host key) s)
  published_in key _ = none

  abbrev pub OpenIn : Text → Backing conn.State → Type 0
  OpenIn key (zk_registry r s) = IsOpenAt conn json N host key s
  OpenIn key _ = ⊥

  -- What is published changes at the key that is touched.
  published_at :
      (at key : Text) (r : ZkRegistry) (s s' : conn.State) (n : Option Node)
      → Touches conn json N host at s s'
      → node (node_path host at) s' ≡ n
      → published_in key (zk_registry r s')
        ≡ (if text_eq at key then read n else published_in key (zk_registry r s))
  unfolding published_in
  published_at at key r s s' n t e = elim (Bool-cases (text_eq at key)) [
    | inl k ↦
        rw k
          (ap (λ x. read (node (node_path host x) s')) (sym ((text_eq_iff at key).0 k)) ∙ ap read e)
    | inr k ↦ rw k (
        ap read (
          same_address conn json N host at key s s' t
            (λ x. cc ((text_eq_iff _ _).1 (sym x), same_path host at key, k))))
  ]

  module _ (uri group : Text) where
    abbrev pub key_of : Text
    key_of = build_service_uri uri group

    abbrev pub Registers :
        Option ServiceMeta → Backing conn.State → Ran (Backing conn.State) Bool → Type 0
    Registers meta w ran =
        (w' : Backing conn.State) × (ran ≡ done true w')
        × ((key : Text)
            → published_in key w' ≡ (if text_eq key_of key then meta else published_in key w))
        × ((key : Text) → OpenIn key w → OpenIn key w')

    pub register_in :
        (meta : ServiceMeta) (w : Backing conn.State)
        → OpenIn key_of w
        → json.unmarshal (json.marshal meta) ≡ some meta
        → Registers (some meta) w ((calls conn json).registe_service uri host protocol group meta w)
    unfolding read
    register_in meta (zk_registry r s) o e =
        let (s', k, r') =
          registe_service-Registered conn json N o.path_parts host s meta uri protocol group
            o.is_path o.can_register in
        let t = Touches-Registered conn json N host key_of s s' meta o r' in
        let there = ap (λ p. node (addr_path p host) s') o.is_path ∙ r'.registered in
        (
          zk_registry r s',
          ap (with_registry r) k,
          λ key. published_at key_of key r s s' _ t there ∙ rw e refl,
          λ key o'. stays_open conn json N host key_of key s s' t o',
        )
    register_in meta (file_registry r) o e = absurd o
    register_in meta no_registry o e = absurd o

    pub withdraw_in :
        (w : Backing conn.State)
        → OpenIn key_of w
        → Registers none w ((calls conn json).un_registe_service uri host protocol group w)
    unfolding read
    withdraw_in (zk_registry r s) o =
        let free =
          subst (λ p. (a : Node) → node (addr_path p host) s ≡ some a → a.ephemeral ≡ true)
            (sym o.is_path) o.can_register.address_free in
        let (s', k, sets) = un_registe_service_open conn json N uri host protocol group s free in
        let t = Touches-Sets conn json N host key_of s s' sets in
        let gone = sets (node_path host key_of) ∙ rw (text_eq_refl (node_path host key_of)) refl in
        (
          zk_registry r s',
          ap (with_answer r) k,
          λ key. published_at key_of key r s s' none t gone,
          λ key o'. stays_open conn json N host key_of key s s' t o',
        )
    withdraw_in (file_registry r) o = absurd o
    withdraw_in no_registry o = absurd o

  -- On a connected session the registry in ZooKeeper keeps what the contract of a publishing registry
  -- says.
  unfoldable pub zk_publishes : Publishes (calls conn json) host
  zk_publishes = record {
    published = published_in;
    Open = OpenIn;
    Encodes = λ meta. json.unmarshal (json.marshal meta) ≡ some meta;
    register = λ uri group meta w o e. register_in uri group meta w o e;
    withdraw = λ uri group w o. withdraw_in uri group w o;
  }

  -- RegisteAllServices in ZooKeeper, on a connected session: where the services have different keys,
  -- the metas' JSON reads back, the host is a part without '/', each path of a key is made of parts
  -- that are not the host, none of its prefixes is an ephemeral node, and the addresses are free or
  -- taken by earlier registrations, it succeeds, whether the paths are there or not, and the node of
  -- every service's address then reads as its meta.
  pub zk_center-published :
      {M : Meters} {V : Type 0} (services : List (Service M V)) (r : ZkRegistry) (s : conn.State)
      → let c : ConfigCenter (Backing conn.State) M V = record {
        registry = calls conn json;
        services = services;
        hostport = host;
      } in
        All (CanPublish c zk_publishes (zk_registry r s)) services
        → IsDistinct c zk_publishes services
        → (w' : Backing conn.State) × (registe_all_services c (zk_registry r s) ≡ done true w')
          × All
              (λ x.
                published_in (build_service_uri x.service_uri x.group_id) w'
                ≡ some (published_meta c x))
              services
  unfolding zk_publishes
  zk_center-published services r s h d =
      let (w', k, all, _, _) =
        registe_all_services-published
          (record { registry = calls conn json; services = services; hostport = host }) zk_publishes
          (zk_registry r s) h d in
      (w', k, all)
