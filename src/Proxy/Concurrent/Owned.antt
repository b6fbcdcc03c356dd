-- ===== src/Proxy/Concurrent/Owned.antt =====
-- Which client and method the maps and flows of the counting in proxy.go belong to.
use go_moa.Base.{
  ℕ, ◌≤◌, ◌<◌, ◌≡◌, ◌≢◌, refl, ◌∙◌, Text, Option, none, some, Assoc, lookup, delete, lookup-delete,
  text_eq_iff, arith,
}
use go_moa.Stat.{Meters}
use go_moa.Proxy.Concurrent.{
  Heap, Call, Pc, arrived, client_missed, has_map, flow_missed, has_flow, counted,
}

module _ (M : Meters) (kept : Text) where
  -- The flow of a method in a client's map.
  abbrev pub flow_in : Heap M → Option ℕ → Text → Option ℕ
  flow_in h none name = none
  flow_in h (some m) name = lookup name (h.maps m)

  abbrev pub flow_of : Heap M → Text → Text → Option ℕ
  flow_of h source name = flow_in h (lookup source h.clients) name

  abbrev pub count_at : Heap M → Option ℕ → ℕ
  count_at h none = 0
  count_at h (some f) = M.count (h.flows f)

  -- What the maps show for a client and a method.
  abbrev pub shown : Heap M → Text → Text → ℕ
  shown h source name = count_at h (flow_of h source name)

  -- The client that a map was made for, and the client and method that a flow was made for.
  pub record Owners : Type 0 where
    pub of_map : ℕ → Text
    pub of_flow : ℕ → Text × Text

  -- What is stored under a client or a method was made for it.
  pub record IsOwned (o : Owners) (h : Heap M) : Type 0 where
    pub clients_own :
        (a : Text) (m : ℕ) → lookup a h.clients ≡ some m → (m < h.fresh) × (o.of_map m ≡ a)
    pub maps_own :
        (m : ℕ) (a : Text) (f : ℕ)
        → lookup a (h.maps m) ≡ some f
        → (f < h.fresh) × (o.of_flow f ≡ (o.of_map m, a))

  -- A goroutine holds a map of its client, which for a kept client is the one that is stored.
  abbrev pub HoldsMap : Owners → Heap M → Call → ℕ → Type 0
  HoldsMap o h c m =
      (m < h.fresh) × (o.of_map m ≡ c.source) × (c.source ≡ kept → lookup kept h.clients ≡ some m)

  abbrev pub HoldsFlow : Owners → Heap M → Call → ℕ → Type 0
  HoldsFlow o h c f =
      (f < h.fresh)
      × (o.of_flow f ≡ (c.source, c.name))
      × (c.source ≡ kept → flow_of h kept c.name ≡ some f)

  abbrev pub Holds : Owners → Heap M → Call → Pc → Type 0
  Holds o h c (has_map m) = HoldsMap o h c m
  Holds o h c (flow_missed m) = HoldsMap o h c m
  Holds o h c (has_flow f) = HoldsFlow o h c f
  Holds o h c _ = Unit

  -- A step of another goroutine or of the timer, as one sees it that holds a map or a flow.
  pub record Extends (o o' : Owners) (h h' : Heap M) : Type 0 where
    pub grows : h.fresh ≤ h'.fresh
    pub same_maps : (m : ℕ) → m < h.fresh → o'.of_map m ≡ o.of_map m
    pub same_flows : (f : ℕ) → f < h.fresh → o'.of_flow f ≡ o.of_flow f
    pub client_stays : (m : ℕ) → lookup kept h.clients ≡ some m → lookup kept h'.clients ≡ some m
    pub flow_stays :
        (name : Text) (f : ℕ) → flow_of h kept name ≡ some f → flow_of h' kept name ≡ some f

  Extends-refl : (o : Owners) (h : Heap M) → Extends o o h h
  Extends-refl o h = record {
    grows = omega arith;
    same_maps = λ m l. refl;
    same_flows = λ f l. refl;
    client_stays = λ m e. e;
    flow_stays = λ name f e. e;
  }

  pub Holds-Extends :
      (o o' : Owners) (h h' : Heap M) (c : Call) (p : Pc)
      → Extends o o' h h'
      → Holds o h c p
      → Holds o' h' c p
  Holds-Extends o o' h h' c arrived x k = tt
  Holds-Extends o o' h h' c client_missed x k = tt
  Holds-Extends o o' h h' c (has_map m) x (l, e, s) =
      (omega (arith, l, x.grows), x.same_maps m l ∙ e, λ q. x.client_stays m (s q))
  Holds-Extends o o' h h' c (flow_missed m) x (l, e, s) =
      (omega (arith, l, x.grows), x.same_maps m l ∙ e, λ q. x.client_stays m (s q))
  Holds-Extends o o' h h' c (has_flow f) x (l, e, s) =
      (omega (arith, l, x.grows), x.same_flows f l ∙ e, λ q. x.flow_stays c.name f (s q))
  Holds-Extends o o' h h' c counted x k = tt

  -- The next step of a heap, with the owners behind it.
  pub record Next (o o' : Owners) (h h' : Heap M) : Type 0 where
    pub is_owned : IsOwned o' h'
    pub extends : Extends o o' h h'

  -- Nothing changes.
  pub stay : (o : Owners) (h : Heap M) → IsOwned o h → Next o o h h
  stay o h w = record { is_owned = w; extends = Extends-refl o h }

  pub kept_stays :
      (client : Text) (clients : Assoc ℕ)
      → client ≢ kept
      → lookup kept (delete client clients) ≡ lookup kept clients
  kept_stays client clients ne =
      ground (arith, ne, lookup-delete client kept clients, text_eq_iff client kept)

  -- A client that is not the kept one goes.
  pub forget-Next :
      (o : Owners) (h : Heap M) (client : Text)
      → client ≢ kept
      → IsOwned o h
      → Next o o h (record h { clients = delete client h.clients })
  forget-Next o h client ne w = record {
    is_owned = record {
      clients_own =
          λ a m e. w.clients_own a m (ground (arith, e, lookup-delete client a h.clients));
      maps_own = w.maps_own;
    };
    extends = record {
      grows = omega arith;
      same_maps = λ m l. refl;
      same_flows = λ f l. refl;
      client_stays = λ m e. kept_stays client h.clients ne ∙ e;
      flow_stays = λ name f e. rw (kept_stays client h.clients ne) e;
    };
  }
