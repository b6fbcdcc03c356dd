-- ===== src/Tests/Concurrent.antt =====
-- Two goroutines that count a call of the same method by the same client, each step of the one before
-- the same step of the other, with the timer between them.
use go_moa.Base.{
  ℕ, zero, suc, lookup, insert, text_eq, delete, ◌≤◌, ◌<◌, ◌≡◌, refl, Text, codes, List, [], ◌∷◌,
  All, arith,
}
use go_moa.Base.Family.{total}
use go_moa.Proxy.Invoke.Counting.{calls_in}
use go_moa.Proxy.Concurrent.{Call, start, at_start, runs, forgets}
use go_moa.Proxy.Concurrent.Owned.{shown}
use go_moa.Proxy.Concurrent.Turns.{counted_as}
use go_moa.Proxy.Concurrent.Exact.{Reach-exact}
use go_moa.Proxy.Concurrent.Schedule.{Event, runs_one, timer, turns_of, play, Allowed, Reach-play}
use go_moa.Proxy.Concurrent.Sequential.{count_first, play-count_first}
use go_moa.Tests.Stat.{counting, counts_all}

abbrev client : Text
client = codes "10.0.0.1:999"

abbrev get_name : Text
get_name = codes "GetName"

abbrev both : ℕ → Call
both i = record { source = client; name = get_name }

-- Both miss the client, and only then store it.
abbrev race : List Event
race =
    runs_one 0
    ∷ runs_one 1
    ∷ runs_one 0
    ∷ runs_one 1
    ∷ timer []
    ∷ runs_one 0
    ∷ runs_one 1
    ∷ runs_one 0
    ∷ runs_one 1
    ∷ runs_one 0
    ∷ runs_one 1
    ∷ []

abbrev Stays : Text → Type 0
Stays c = c ≡ client

allowed : All (Allowed counting 2 Stays) race
allowed = (
  omega arith,
  (
    omega arith,
    (
      omega arith,
      (
        omega arith,
        (
          ((λ e. cc)),
          (
            omega arith,
            (omega arith, (omega arith, (omega arith, (omega arith, (omega arith, tt))))),
          ),
        ),
      ),
    ),
  ),
)

five_each : (i : ℕ) → i < 2 → 5 ≤ turns_of i race
five_each zero l = omega arith
five_each (suc zero) l = omega arith
five_each (suc (suc i)) l = absurd (omega (arith, l))

play-count_first_example :
    shown counting client (play counting race (at_start counting both)).heap client get_name
    ≡ calls_in counting (count_first counting 2 both) client get_name
play-count_first_example =
    play-count_first counting counts_all 2 both race client get_name allowed five_each

Reach-exact_example :
    shown counting client (play counting race (at_start counting both)).heap client get_name
    ≡ total (counted_as client get_name) 2 (play counting race (at_start counting both)).goroutines
Reach-exact_example =
    Reach-exact counting counts_all client 2 Stays both
      (play counting race (at_start counting both)) get_name refl
      (Reach-play counting 2 Stays both race (at_start counting both) allowed start)

two_counted :
    shown counting client (play counting race (at_start counting both)).heap client get_name ≡ 2
unfolding play lookup runs forgets insert text_eq delete
two_counted = refl
