-- ===== src/Proxy/Concurrent/OneMore.antt =====
-- Incr of a flow in the counting of proxy.go, and what the maps show behind it.
use go_moa.Base.{
  ℕ, ◌+◌, false, ◌≡◌, refl, sym, ap, ◌∙◌, subst, inl, inr, Text, none, some, lookup, text_eq,
  text_eq_iff, ◌&&◌, ◌==◌, ==_iff, arith, Option-cases, Bool-cases,
}
use go_moa.Base.Family.{update}
use go_moa.Stat.{Meters}
use go_moa.Proxy.Invoke.Counting.{CountsAll, one_if}
use go_moa.Proxy.Concurrent.{Heap}
use go_moa.Proxy.Concurrent.Owned.{Owners, IsOwned, Next, flow_of, shown}

module _ (M : Meters) (kept : Text) (o : Owners M kept) (h : Heap M) (w : IsOwned M kept o h) where
  -- One more in a flow that was made for this client and this method.
  module _ (source name : Text) (f : ℕ) (owner : o.of_flow f ≡ (source, name))
      (stored : source ≡ kept → flow_of M kept h kept name ≡ some f) where
    abbrev pub with_one : Heap M
    with_one = record h { flows = update f (M.incr 1 (h.flows f)) h.flows }

    pub one-Next : Next M kept o o h with_one
    one-Next = record {
      is_owned = record { clients_own = w.clients_own; maps_own = w.maps_own };
      extends = record {
        grows = omega arith;
        same_maps = λ m l. refl;
        same_flows = λ g l. refl;
        client_stays = λ m e. e;
        flow_stays = λ a g e. e;
      };
    }

    -- The flow of another method, or of any method where the client is another, is another flow.
    owner_of_shown : (a : Text) → flow_of M kept h kept a ≡ some f → (source ≡ kept) × (name ≡ a)
    owner_of_shown a e = elim (Option-cases (lookup kept h.clients)) [
      | inl k ↦ absurd (let x = rw k at e in cc x)
      | inr (m, k) ↦
          let own = (w.maps_own m a f (rw k at e)).1 in
          let client = (w.clients_own kept m k).1 in
          (ap (λ p. p.0) (sym owner ∙ own) ∙ client, ap (λ p. p.1) (sym owner ∙ own))
    ]

    is_this :
        (a : Text) (g : ℕ)
        → flow_of M kept h kept a ≡ some g
        → (f == g) ≡ (text_eq source kept && text_eq name a)
    is_this a g e = elim (Bool-cases (f == g)) [
      | inl k ↦
          let same : f ≡ g = (==_iff f g).0 k in
          let (s, n) = owner_of_shown a (e ∙ ap some (sym same)) in
          ground (arith, k, s, n, text_eq_iff source kept, text_eq_iff name a)
      | inr k ↦ elim (Bool-cases (text_eq source kept && text_eq name a)) [
        | inr x ↦ k ∙ sym x
        | inl x ↦ absurd (
            not_other a g e k (ground (arith, x, text_eq_iff source kept))
              (ground (arith, x, text_eq_iff name a)))
      ]
    ]
      where
        not_other :
            (a : Text) (g : ℕ)
            → flow_of M kept h kept a ≡ some g
            → (f == g) ≡ false
            → source ≡ kept
            → ¬ (name ≡ a)
        not_other a g e k s n =
            let there : flow_of M kept h kept a ≡ some f =
              subst (λ x. flow_of M kept h kept x ≡ some f) n (stored s) in
            let same : f ≡ g = cc (there, e) in cc ((==_iff f g).1 same, k)

    not_this :
        (a : Text)
        → flow_of M kept h kept a ≡ none
        → (text_eq source kept && text_eq name a) ≡ false
    not_this a e = elim (Bool-cases (text_eq source kept && text_eq name a)) [
      | inr x ↦ x
      | inl x ↦
          let s : source ≡ kept = ground (arith, x, text_eq_iff source kept) in
          let n : name ≡ a = ground (arith, x, text_eq_iff name a) in
          absurd (cc (subst (λ y. flow_of M kept h kept y ≡ some f) n (stored s), e))
    ]

    module _ (c : CountsAll M) where
      count_one : (g : ℕ) → M.count (with_one.flows g) ≡ M.count (h.flows g) + one_if (f == g)
      count_one g = elim (Bool-cases (f == g)) [
        | inl e ↦
            let same : f ≡ g = (==_iff f g).0 e in
            rw e (c.count-incr 1 (h.flows f) ∙ ap (λ x. M.count (h.flows x) + 1) same)
        | inr e ↦ rw e (omega arith)
      ]

      pub one_shown :
          (a : Text)
          → shown M kept with_one kept a
            ≡ shown M kept h kept a + one_if (text_eq source kept && text_eq name a)
      one_shown a = elim (Option-cases (flow_of M kept h kept a)) [
        | inl e ↦ rw (e, not_this a e) refl
        | inr (g, e) ↦ rw (e, ← is_this a g e) (count_one g)
      ]
