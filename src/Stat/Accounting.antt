-- ===== src/Stat/Accounting.antt =====
-- What the counters of stat.go report over any sequence of calls and rounds.
use go_moa.Base.{ℕ, suc, ◌+◌, ◌%◌, ◌≤◌, ◌≡◌, refl, ap, Text, List, [], ◌∷◌, arith}
use go_moa.Stat.{
  Meters, MoaInfo, MoaStat, Sample, max_rotate_size, fresh_moa_stat, incr_recv, incr_proc,
  incr_error, incr_timeout, tick,
}

-- turbo.Flow as documented: `Changes` returns what was added since the last call of it.
pub record CountsChanges (M : Meters) : Type 0 where
  pub pending : M.Flow → ℕ
  pub pending-new : pending M.new_flow ≡ 0
  pub pending-incr : (n : ℕ) (f : M.Flow) → pending (M.incr n f) ≡ pending f + n
  pub changes-pending : (f : M.Flow) → (M.changes f).0 ≡ pending f
  pub changes_reset : (f : M.Flow) → pending (M.changes f).1 ≡ 0

-- What happens to the statistics of a running server.
pub data Event : Type 0 where
  received processed failed timed_out : Event
  ticked : Sample → Event

-- The totals over the rounds so far.
pub record Totals : Type 0 where
  pub recv : ℕ
  pub proc : ℕ
  pub error : ℕ
  pub timeout : ℕ

abbrev pub no_totals : Totals
no_totals = record { recv = 0; proc = 0; error = 0; timeout = 0 }

abbrev pub add_info : MoaInfo → Totals → Totals
add_info i t = record {
  recv = t.recv + i.recv;
  proc = t.proc + i.proc;
  error = t.error + i.error;
  timeout = t.timeout + i.timeout;
}

-- How often each event occurs.
abbrev pub tally : Event → Totals → Totals
tally received t = record t { recv = t.recv + 1 }
tally processed t = record t { proc = t.proc + 1 }
tally failed t = record t { error = t.error + 1 }
tally timed_out t = record t { timeout = t.timeout + 1 }
tally (ticked x) t = t

abbrev pub occurred : List Event → Totals → Totals
occurred [] t = t
occurred (e ∷ es) t = occurred es (tally e t)

module _ {M : Meters} where
  pub step : Event → MoaStat M → MoaStat M
  step received s = incr_recv s
  step processed s = incr_proc s
  step failed s = incr_error s
  step timed_out s = incr_timeout s
  step (ticked x) s = tick x s

  -- A round adds what it reports.
  pub reported : Event → MoaStat M → Totals → Totals
  unfolding step
  reported (ticked x) s t = add_info (step (ticked x) s).pre_moa_info t
  reported _ s t = t

  pub run : List Event → MoaStat M → Totals → MoaStat M × Totals
  unfolding step reported
  run [] s t = (s, t)
  run (e ∷ es) s t = run es (step e s) (reported e s t)

  module _ (c : CountsChanges M) where
    open c use {pending, pending-incr, changes-pending, changes_reset}

    -- What was reported together with what still waits for the next round.
    abbrev pub seen : MoaStat M → Totals → Totals
    seen s t = record {
      recv = t.recv + pending s.curr_moa_info.recv;
      proc = t.proc + pending s.curr_moa_info.proc;
      error = t.error + pending s.curr_moa_info.error;
      timeout = t.timeout + pending s.curr_moa_info.timeout;
    }

    step-seen :
        (e : Event) (s : MoaStat M) (t : Totals)
        → seen (step e s) (reported e s t) ≡ tally e (seen s t)
    unfolding step reported incr_recv incr_proc incr_error incr_timeout tick
    step-seen received s t = ground (arith, pending-incr 1 s.curr_moa_info.recv)
    step-seen processed s t = ground (arith, pending-incr 1 s.curr_moa_info.proc)
    step-seen failed s t = ground (arith, pending-incr 1 s.curr_moa_info.error)
    step-seen timed_out s t = ground (arith, pending-incr 1 s.curr_moa_info.timeout)
    step-seen (ticked x) s t = ground (
      arith,
      changes-pending s.curr_moa_info.recv,
      changes-pending s.curr_moa_info.proc,
      changes-pending s.curr_moa_info.error,
      changes-pending s.curr_moa_info.timeout,
      changes_reset s.curr_moa_info.recv,
      changes_reset s.curr_moa_info.proc,
      changes_reset s.curr_moa_info.error,
      changes_reset s.curr_moa_info.timeout,
    )

    run-seen :
        (es : List Event) (s : MoaStat M) (t : Totals)
        → (let r = run es s t in seen r.0 r.1) ≡ occurred es (seen s t)
    unfolding run
    run-seen [] s t = refl
    run-seen (e ∷ es) s t = rw (run-seen es (step e s) (reported e s t), step-seen e s t)

    -- No event is lost or counted twice: from a new MoaStat, through any interleaving of counted
    -- calls and rounds, what the rounds reported and what waits for the next one add up to the
    -- number of the events of each kind.
    pub run_conserves :
        (host uri : Text) (es : List Event)
        → (let r = run es (fresh_moa_stat M host uri) no_totals in seen r.0 r.1)
          ≡ occurred es no_totals
    unfolding fresh_moa_stat
    run_conserves host uri es =
        rw (run-seen es _ no_totals) (ap (occurred es) (ground (arith, c.pending-new)))

abbrev pub rounds : List Event → ℕ
rounds [] = 0
rounds (ticked x ∷ es) = suc (rounds es)
rounds (_ ∷ es) = rounds es

tick-rotate_size :
    {M : Meters} (x : Sample) (s : MoaStat M)
    → s.rotate_size ≤ max_rotate_size
    → ((tick x s).rotate_size ≤ max_rotate_size)
      × ((tick x s).rotate_size ≡ (s.rotate_size + 1) % 11)
unfolding tick
tick-rotate_size x s h = ground arith

run-rotate_size :
    {M : Meters} (es : List Event) (s : MoaStat M) (t : Totals)
    → s.rotate_size ≤ max_rotate_size
    → (run es s t).0.rotate_size ≡ (s.rotate_size + rounds es) % 11
unfolding run step incr_recv incr_proc incr_error incr_timeout
run-rotate_size [] s t h = omega arith
run-rotate_size (received ∷ es) s t h = run-rotate_size es _ _ h
run-rotate_size (processed ∷ es) s t h = run-rotate_size es _ _ h
run-rotate_size (failed ∷ es) s t h = run-rotate_size es _ _ h
run-rotate_size (timed_out ∷ es) s t h = run-rotate_size es _ _ h
run-rotate_size (ticked x ∷ es) s t h =
    let (small, next) = tick-rotate_size x s h in
    omega (arith, next, run-rotate_size es (tick x s) (add_info (tick x s).pre_moa_info t) small)

-- The rotation counter of a new MoaStat is the number of rounds modulo eleven, whatever calls come
-- between.
pub rotate_size_period :
    (M : Meters) (host uri : Text) (es : List Event)
    → (run es (fresh_moa_stat M host uri) no_totals).0.rotate_size ≡ rounds es % 11
unfolding fresh_moa_stat
rotate_size_period M host uri es =
    rw (run-rotate_size es (fresh_moa_stat M host uri) no_totals (omega arith)) (omega arith)
