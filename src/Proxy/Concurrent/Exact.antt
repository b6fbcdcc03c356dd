-- ===== src/Proxy/Concurrent/Exact.antt =====
-- No count of a client is lost while many goroutines count calls in proxy.go.
use go_moa.Base.{ℕ, ◌<◌, ◌≡◌, refl, sym, subst, inl, inr, Text, lookup, ◌==◌, arith, Bool-cases}
use go_moa.Base.Family.{total, total-update, total_zero}
use go_moa.Stat.{Meters}
use go_moa.Proxy.Invoke.Counting.{CountsAll}
use go_moa.Proxy.Concurrent.{
  Heap, Call, Pc, turn, System, moved, runs, forgets, Step, run, forget, at_start, Reach, start,
  later,
}
use go_moa.Proxy.Concurrent.Owned.{
  shown, Owners, IsOwned, Holds, Holds-Extends, forget-Next, kept_stays,
}
use go_moa.Proxy.Concurrent.Turns.{counted_as, Turned, turn-Turned}

module _ (M : Meters) (c : CountsAll M) (kept : Text) where
  -- The owners of what is stored, what each goroutine holds, and the counts of the kept client.
  record Inv (n : ℕ) (s : System M) : Type 0 where
    owners : Owners M kept
    is_owned : IsOwned M kept owners s.heap
    holds : (i : ℕ) → Holds M kept owners s.heap (s.goroutines i).call (s.goroutines i).pc
    exact :
        (name : Text) → shown M kept s.heap kept name ≡ total (counted_as kept name) n s.goroutines

  Inv-at_start : (n : ℕ) (calls : ℕ → Call) → Inv n (at_start M calls)
  unfolding lookup
  Inv-at_start n calls = record {
    owners = record { of_map = λ m. kept; of_flow = λ f. (kept, kept) };
    is_owned = record { clients_own = λ a m e. cc; maps_own = λ m a f e. cc };
    holds = λ i. tt;
    exact =
        λ name. sym (total_zero (counted_as kept name) n (at_start M calls).goroutines (λ i. refl));
  }

  Inv-moved :
      (n i : ℕ) (s : System M) (out : Heap M × Pc)
      → i < n
      → (v : Inv n s)
      → Turned M c kept v.owners s.heap (s.goroutines i).call (s.goroutines i).pc out
      → Inv n (moved M i out s)
  Inv-moved n i s out l v t = record {
    owners = t.behind;
    is_owned = t.next.is_owned;
    holds = λ j. elim (Bool-cases (i == j)) [
      | inl e ↦ rw e t.holds
      | inr e ↦ rw e (
          Holds-Extends M kept v.owners t.behind s.heap out.0 (s.goroutines j).call
            (s.goroutines j).pc t.next.extends (v.holds j))
    ];
    exact = λ name. omega (
      arith,
      v.exact name,
      t.shows name,
      total-update (counted_as kept name) n i (record { call = (s.goroutines i).call; pc = out.1 })
          s.goroutines l,
    );
  }

  Inv-Step :
      (n : ℕ) (Stays : Text → Type 0) (s t : System M)
      → Stays kept
      → Step M n Stays s t
      → Inv n s
      → Inv n t
  unfolding runs forgets
  Inv-Step n Stays s t k (run i l) v =
      Inv-moved n i s (turn M (s.goroutines i).call s.heap (s.goroutines i).pc) l v (
        turn-Turned M c kept v.owners s.heap v.is_owned (s.goroutines i).call (s.goroutines i).pc
          (v.holds i))
  Inv-Step n Stays s t k (forget client f) v =
      let next =
        forget-Next M kept v.owners s.heap client (λ e. f (subst Stays (sym e) k)) v.is_owned in
      record {
        owners = v.owners;
        is_owned = next.is_owned;
        holds = λ i.
            Holds-Extends M kept v.owners v.owners s.heap _ (s.goroutines i).call
              (s.goroutines i).pc next.extends (v.holds i);
        exact = λ name.
            rw (kept_stays M kept client s.heap.clients (λ e. f (subst Stays (sym e) k)))
              (v.exact name);
      }

  Inv-Reach :
      (n : ℕ) (Stays : Text → Type 0) (calls : ℕ → Call) (s : System M)
      → Stays kept
      → Reach M n Stays calls s
      → Inv n s
  Inv-Reach n Stays calls s k start = Inv-at_start n calls
  Inv-Reach n Stays calls s k (later {s = t} r st) =
      Inv-Step n Stays t s k st (Inv-Reach n Stays calls t k r)

  -- Whatever the goroutines' steps are between each other and the timer's, in every state that they
  -- reach: for a client that stays and any method, the maps show the number of goroutines that have
  -- counted a call of this client and this method, provided that a flow counts what is added.
  pub Reach-exact :
      (n : ℕ) (Stays : Text → Type 0) (calls : ℕ → Call) (s : System M) (name : Text)
      → Stays kept
      → Reach M n Stays calls s
      → shown M kept s.heap kept name ≡ total (counted_as kept name) n s.goroutines
  Reach-exact n Stays calls s name k r = (Inv-Reach n Stays calls s k r).exact name
