-- ===== src/Tests/Stat.antt =====
-- The statistics with flows that count.
use go_moa.Base.{ℕ, ◌+◌, ◌≡◌, refl, codes, List, [], ◌∷◌}
use go_moa.Stat.{Meters, Sample, fresh_moa_stat}
use go_moa.Stat.Accounting.{
  CountsChanges, Event, received, processed, failed, ticked, no_totals, occurred, run, seen,
  run_conserves,
}
use go_moa.Proxy.Invoke.Counting.{CountsAll}

-- A flow is the count and what was added since the last `changes`; the metrics are counts.
abbrev pub counting : Meters
counting = record {
  Flow = ℕ × ℕ;
  new_flow = (0, 0);
  incr = λ n f. (f.0 + n, f.1 + n);
  count = λ f. f.0;
  changes = λ f. (f.1, (f.0, 0));
  Counter = ℕ;
  new_counter = 0;
  inc = λ n. n + 1;
  Gauge = ℕ;
  new_gauge = 0;
  set_gauge = λ n g. n;
  Summary = ℕ;
  new_summary = 0;
  observe = λ method n s. s + n;
}

abbrev pub counts_changes : CountsChanges counting
counts_changes = record {
  pending = λ f. f.1;
  pending-new = refl;
  pending-incr = λ n f. refl;
  changes-pending = λ f. refl;
  changes_reset = λ f. refl;
}

abbrev pub counts_all : CountsAll counting
counts_all = record { count-new = refl; count-incr = λ n f. refl }

abbrev sample : Sample
sample = record { size = 1; invoke_cap = 10; connections = 2; num_goroutine = 12 }

abbrev history : List Event
history = received ∷ processed ∷ ticked sample ∷ received ∷ failed ∷ []

run_conserves_example :
    (let r = run history (fresh_moa_stat counting (codes "h") (codes "u")) no_totals in
      seen counts_changes r.0 r.1)
    ≡ occurred history no_totals
run_conserves_example = run_conserves counts_changes (codes "h") (codes "u") history
