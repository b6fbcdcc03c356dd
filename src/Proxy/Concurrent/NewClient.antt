-- ===== src/Proxy/Concurrent/NewClient.antt =====
-- LoadOrStore of a client in the counting of proxy.go: the owners behind it, and what the maps show.
use go_moa.Base.{
  ℕ, ◌+◌, ◌<◌, ◌≡◌, refl, ap, ◌∙◌, inl, inr, Text, none, some, [], lookup, insert, lookup-insert,
  text_eq, text_eq_iff, ◌==◌, arith, Option-cases, Bool-cases,
}
use go_moa.Base.Family.{update, update_self, update_other}
use go_moa.Stat.{Meters}
use go_moa.Proxy.Concurrent.{Heap}
use go_moa.Proxy.Concurrent.Owned.{Owners, IsOwned, Next, flow_in, flow_of, count_at, shown}

module _ (M : Meters) (kept : Text) (o : Owners M kept) (h : Heap M) (w : IsOwned M kept o h) where
  -- A new map for a client that has none.
  module _ (source : Text) (missing : lookup source h.clients ≡ none) where
    abbrev pub with_client : Heap M
    with_client = record h {
      clients = insert source h.fresh h.clients;
      maps = update h.fresh [] h.maps;
      fresh = h.fresh + 1;
    }

    abbrev pub owners_client : Owners M kept
    owners_client = record o { of_map = update h.fresh source o.of_map }

    client_own :
        (a : Text) (m : ℕ)
        → lookup a with_client.clients ≡ some m
        → (m < with_client.fresh) × (owners_client.of_map m ≡ a)
    client_own a m e = elim (Bool-cases (text_eq source a)) [
      | inl k ↦
          let same : h.fresh ≡ m = ground (arith, e, k, lookup-insert source a h.fresh h.clients) in
          (omega (arith, same), ground (arith, same, k, text_eq_iff source a))
      | inr k ↦
          let (l, p) =
            w.clients_own a m (ground (arith, e, k, lookup-insert source a h.fresh h.clients)) in
          (omega (arith, l), update_other h.fresh m source o.of_map (omega (arith, l)) ∙ p)
    ]

    map_own :
        (m : ℕ) (a : Text) (f : ℕ)
        → lookup a (with_client.maps m) ≡ some f
        → (f < with_client.fresh) × (owners_client.of_flow f ≡ (owners_client.of_map m, a))
    unfolding lookup
    map_own m a f e = elim (Bool-cases (h.fresh == m)) [
      | inl k ↦ absurd (let x = rw k at e in cc x)
      | inr k ↦ let (l, p) = w.maps_own m a f (rw k at e) in (omega (arith, l), rw k p)
    ]

    -- A client that has a map keeps it.
    client_there :
        (m : ℕ) → lookup kept h.clients ≡ some m → lookup kept with_client.clients ≡ some m
    client_there m e =
        ground
          (arith, e, missing, lookup-insert source kept h.fresh h.clients, text_eq_iff source kept)

    flows_there :
        (m : ℕ) (name : Text)
        → lookup kept h.clients ≡ some m
        → flow_of M kept with_client kept name ≡ flow_of M kept h kept name
    flows_there m name e =
        rw (client_there m e, e)
          (ap (lookup name)
            (update_other h.fresh m [] h.maps (omega (arith, (w.clients_own kept m e).0))))

    pub client-Next : Next M kept o owners_client h with_client
    client-Next = record {
      is_owned = record { clients_own = client_own; maps_own = map_own };
      extends = record {
        grows = omega arith;
        same_maps = λ m l. update_other h.fresh m source o.of_map (omega (arith, l));
        same_flows = λ f l. refl;
        client_stays = client_there;
        flow_stays = λ name f e. elim (Option-cases (lookup kept h.clients)) [
          | inl k ↦ absurd (let x = rw k at e in cc x)
          | inr (m, k) ↦ flows_there m name k ∙ e
        ];
      };
    }

    none_in_new :
        (name : Text)
        → count_at M kept with_client (flow_in M kept with_client (some h.fresh) name) ≡ 0
    unfolding lookup
    none_in_new name = rw (update_self h.fresh [] h.maps) refl

    pub client_shown : (name : Text) → shown M kept with_client kept name ≡ shown M kept h kept name
    client_shown name = elim (Option-cases (lookup kept h.clients)) [
      | inr (m, k) ↦ ap (count_at M kept h) (flows_there m name k)
      | inl k ↦ elim (Bool-cases (text_eq source kept)) [
        | inl t ↦
            let new : lookup kept with_client.clients ≡ some h.fresh =
              lookup-insert source kept h.fresh h.clients ∙ rw t refl in
            rw (new, k) (none_in_new name)
        | inr f ↦
            let same : lookup kept with_client.clients ≡ none =
              lookup-insert source kept h.fresh h.clients ∙ rw f k in
            rw (same, k) refl
      ]
    ]
