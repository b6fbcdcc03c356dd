-- ===== src/Proxy/Concurrent/Sequential.antt =====
-- The counting of proxy.go by many goroutines against one call after the other.
use go_moa.Base.{
  ℕ, zero, suc, ◌+◌, ◌≤◌, ◌<◌, ◌≡◌, refl, sym, ap, ◌∙◌, Text, List, [], All, text_eq, ◌&&◌, lookup,
}
use go_moa.Base.Family.{total, total_same}
use go_moa.Stat.{Meters}
use go_moa.Proxy.{Invokes}
use go_moa.Proxy.Invoke.{count_invoke}
use go_moa.Proxy.Invoke.Counting.{CountsAll, one_if, calls_in, calls_of, calls_in-count_invoke}
use go_moa.Proxy.Concurrent.{Call, Goroutine, at_start, start}
use go_moa.Proxy.Concurrent.Owned.{shown}
use go_moa.Proxy.Concurrent.Turns.{counted_as}
use go_moa.Proxy.Concurrent.Exact.{Reach-exact}
use go_moa.Proxy.Concurrent.Schedule.{
  Event, turns_of, play, Allowed, Reach-play, play-counted, call-play,
}

module _ (M : Meters) where
  -- The first `n` calls, counted one after the other.
  abbrev pub count_first : ℕ → (ℕ → Call) → Invokes M
  count_first zero calls = []
  count_first (suc n) calls = count_invoke M (calls n).source (calls n).name (count_first n calls)

  module _ (c : CountsAll M) where
    calls_in-count_first :
        (n : ℕ) (gs : ℕ → Goroutine) (source name : Text)
        → calls_in M (count_first n (λ i. (gs i).call)) source name
          ≡ total
              (λ (g : Goroutine). one_if (text_eq g.call.source source && text_eq g.call.name name))
              n
              gs
    unfolding total calls_in calls_of lookup
    calls_in-count_first zero gs source name = refl
    calls_in-count_first (suc n) gs source name =
        calls_in-count_invoke M c (gs n).call.source (gs n).call.name source name
          (count_first n (λ i. (gs i).call))
        ∙ ap (λ k. k + one_if (text_eq (gs n).call.source source && text_eq (gs n).call.name name))
            (calls_in-count_first n gs source name)

    -- Goroutines that count calls of a service at once, with the timer between them, which leaves a
    -- client: when each has come to run five times, in any order, the maps show for this client and
    -- any method what they show where the calls are counted one after the other, provided that a flow
    -- counts what is added.
    pub play-count_first :
        (n : ℕ) (calls : ℕ → Call) (es : List Event) (source name : Text)
        → All (Allowed M n (λ client. client ≡ source)) es
        → ((i : ℕ) → i < n → 5 ≤ turns_of i es)
        → shown M source (play M es (at_start M calls)).heap source name
          ≡ calls_in M (count_first n calls) source name
    play-count_first n calls es source name a t =
        let end = play M es (at_start M calls) in
        Reach-exact M c source n (λ client. client ≡ source) calls end name refl
          (Reach-play M n (λ client. client ≡ source) calls es (at_start M calls) a start)
        ∙ total_same (counted_as source name) of_call n end.goroutines (at_start M calls).goroutines
            (λ i l.
              rw
                (
                  play-counted M i es (at_start M calls) (t i l),
                  call-play M i es (at_start M calls),
                )
                refl)
        ∙ sym (calls_in-count_first n (at_start M calls).goroutines source name)
      where
        of_call : Goroutine → ℕ
        of_call g = one_if (text_eq g.call.source source && text_eq g.call.name name)
