-- ===== src/Proxy/Concurrent/NewFlow.antt =====
-- LoadOrStore of a method in the counting of proxy.go: the owners behind it, and what the maps show.
use go_moa.Base.{
  ℕ, ◌+◌, ◌<◌, true, false, ◌≡◌, refl, sym, ap, ◌∙◌, subst, inl, inr, Text, Option, none, some,
  lookup, insert, lookup-insert, text_eq, text_eq_iff, ◌&&◌, ◌==◌, ==_iff, if◌then◌else◌, arith,
  Option-cases, Bool-cases,
}
use go_moa.Base.Family.{update, update_self, update_other}
use go_moa.Stat.{Meters}
use go_moa.Proxy.Invoke.Counting.{CountsAll}
use go_moa.Proxy.Concurrent.{Heap}
use go_moa.Proxy.Concurrent.Owned.{Owners, IsOwned, Next, flow_in, count_at, shown}

module _ (M : Meters) (kept : Text) (o : Owners M kept) (h : Heap M) (w : IsOwned M kept o h) where
  -- A new flow for a method that has none in a client's map.
  module _ (name : Text) (m : ℕ) (in_use : m < h.fresh)
      (missing : lookup name (h.maps m) ≡ none) where
    abbrev pub with_flow : Heap M
    with_flow = record h {
      maps = update m (insert name h.fresh (h.maps m)) h.maps;
      flows = update h.fresh M.new_flow h.flows;
      fresh = h.fresh + 1;
    }

    abbrev pub owners_flow : Owners M kept
    owners_flow = record o { of_flow = update h.fresh (o.of_map m, name) o.of_flow }

    -- What is stored under a method in a map, behind the step.
    stored_lem :
        (m' : ℕ) (a : Text)
        → lookup a (with_flow.maps m')
          ≡ (if m == m' && text_eq name a then some h.fresh else lookup a (h.maps m'))
    stored_lem m' a = elim (Bool-cases (m == m')) [
      | inl k ↦
          let same : m ≡ m' = (==_iff m m').0 k in
          rw k (lookup-insert name a h.fresh (h.maps m) ∙ rw same refl)
      | inr k ↦ rw k refl
    ]

    stored_new :
        (m' : ℕ) (a : Text)
        → (m == m' && text_eq name a) ≡ true
        → lookup a (with_flow.maps m') ≡ some h.fresh
    stored_new m' a k = stored_lem m' a ∙ rw k refl

    stored_old :
        (m' : ℕ) (a : Text)
        → (m == m' && text_eq name a) ≡ false
        → lookup a (with_flow.maps m') ≡ lookup a (h.maps m')
    stored_old m' a k = stored_lem m' a ∙ rw k refl

    old_flow :
        (m' : ℕ) (a : Text) (f : ℕ)
        → lookup a (h.maps m') ≡ some f
        → (f < with_flow.fresh) × (owners_flow.of_flow f ≡ (o.of_map m', a))
    old_flow m' a f e =
        let (l, p) = w.maps_own m' a f e in
        (
          omega (arith, l),
          update_other h.fresh f (o.of_map m, name) o.of_flow (omega (arith, l)) ∙ p,
        )

    flow_own :
        (m' : ℕ) (a : Text) (f : ℕ)
        → lookup a (with_flow.maps m') ≡ some f
        → (f < with_flow.fresh) × (owners_flow.of_flow f ≡ (o.of_map m', a))
    flow_own m' a f e = elim (Bool-cases (m == m' && text_eq name a)) [
      | inr k ↦ old_flow m' a f (sym (stored_old m' a k) ∙ e)
      | inl k ↦
          let new : h.fresh ≡ f = cc (stored_new m' a k, e) in
          (
            omega (arith, new),
            subst (λ g. owners_flow.of_flow g ≡ (o.of_map m', a)) new
                (update_self h.fresh (o.of_map m, name) o.of_flow
                  ∙ ground (arith, k, ==_iff m m', text_eq_iff name a)),
          )
    ]

    -- A flow that is there stays, and a method has one behind the step where it is the new one.
    flow_there :
        (client : Option ℕ) (a : Text) (f : ℕ)
        → flow_in M kept h client a ≡ some f
        → flow_in M kept with_flow client a ≡ some f
    flow_there none a f e = e
    flow_there (some m') a f e =
        ground (arith, stored_lem m' a, e, missing, ==_iff m m', text_eq_iff name a)

    pub flow-Next : Next M kept o owners_flow h with_flow
    flow-Next = record {
      is_owned = record {
        clients_own = λ a m' e. let (l, p) = w.clients_own a m' e in (omega (arith, l), p);
        maps_own = flow_own;
      };
      extends = record {
        grows = omega arith;
        same_maps = λ m' l. refl;
        same_flows = λ f l. update_other h.fresh f (o.of_map m, name) o.of_flow (omega (arith, l));
        client_stays = λ m' e. e;
        flow_stays = λ a f e. flow_there (lookup kept h.clients) a f e;
      };
    }

    module _ (c : CountsAll M) where
      count_old : (f : ℕ) → f < h.fresh → M.count (with_flow.flows f) ≡ M.count (h.flows f)
      count_old f l = ap M.count (update_other h.fresh f M.new_flow h.flows (omega (arith, l)))

      count_new : M.count (with_flow.flows h.fresh) ≡ 0
      count_new = ap M.count (update_self h.fresh M.new_flow h.flows) ∙ c.count-new

      shown_in :
          (client : Option ℕ) (a : Text)
          → count_at M kept with_flow (flow_in M kept with_flow client a)
            ≡ count_at M kept h (flow_in M kept h client a)
      shown_in none a = refl
      shown_in (some m') a = elim (Option-cases (lookup a (h.maps m'))) [
        | inr (f, e) ↦ rw (flow_there (some m') a f e, e) (count_old f (w.maps_own m' a f e).0)
        | inl e ↦ elim (Bool-cases (m == m' && text_eq name a)) [
          | inl k ↦ rw (stored_new m' a k, e) count_new
          | inr k ↦ rw (stored_old m' a k, e) refl
        ]
      ]

      pub flow_shown : (a : Text) → shown M kept with_flow kept a ≡ shown M kept h kept a
      flow_shown a = shown_in (lookup kept h.clients) a
