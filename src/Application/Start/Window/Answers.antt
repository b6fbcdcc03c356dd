-- ===== src/Application/Start/Window/Answers.antt =====
-- How often a server of application.go that starts answers a packet.
use go_moa.Base.{
  ℕ, zero, suc, ◌+◌, ◌≤◌, ◌≡◌, refl, Option, none, some, List, [], ◌∷◌, ◌++◌, arith, inl, inr,
  Option-cases,
}
use go_moa.Config.{MoaOption}
use go_moa.Context.{Tracer}
use go_moa.Stat.{Meters}
use go_moa.Proxy.{Reflect, InvocationHandler}
use go_moa.Dispatcher.{App, Packet, Job, Action, write, pong, queue, dis, run_job, send}
use go_moa.Dispatcher.Due.{one_under, sent_under, jobs_under, due, sent_under-send, due-dis}
use go_moa.Application.Start.Window.{
  Phase, listening, has_stat, has_handler, Moment, advances, arrives, runs, Server, just_listening,
  act, take_job, advance, run_with, happens, play,
}

-- How many packets under an opaque arrive.
abbrev pub arrived : {N V : Type 0} → ℕ → List (Moment N V) → ℕ
arrived o [] = 0
arrived o (arrives now network ctx ∷ moments) = one_under o ctx.message.opaque + arrived o moments
arrived o (_ ∷ moments) = arrived o moments

sent_under-append :
    {N V : Type 0} (o : ℕ) (ps qs : List (Packet N V))
    → sent_under o (ps ++ qs) ≡ sent_under o ps + sent_under o qs
sent_under-append o [] qs = omega arith
sent_under-append o (p ∷ ps) qs = omega (arith, sent_under-append o ps qs)

jobs_under-append :
    (o : ℕ) (js ks : List Job) → jobs_under o (js ++ ks) ≡ jobs_under o js + jobs_under o ks
jobs_under-append o [] ks = omega arith
jobs_under-append o (j ∷ js) ks = omega (arith, jobs_under-append o js ks)

-- The call that is taken off the queue, and those that stay.
abbrev Takes : ℕ → List Job → Option (Job × List Job) → Type 0
Takes o jobs none = Unit
Takes o jobs (some (job, rest)) = jobs_under o jobs ≡ one_under o job.opaque + jobs_under o rest

take_job-Takes : (o i : ℕ) (jobs : List Job) → Takes o jobs (take_job i jobs)
unfolding take_job
take_job-Takes o i [] = tt
take_job-Takes o zero (j ∷ jobs) = refl
take_job-Takes o (suc i) (j ∷ jobs) = elim (Option-cases (take_job i jobs)) [
  | inl k ↦ rw k tt
  | inr ((job, rest), k) ↦
      let below : Takes o jobs (some (job, rest)) = rw k at (take_job-Takes o i jobs) in
      rw k (omega (arith, below))
]

-- What is written under an opaque, what waits in the pool and what is lost.
abbrev pub settled : {N V : Type 0} {M : Meters} → ℕ → Server N V M → ℕ
settled o s = sent_under o s.sent + jobs_under o s.queued + jobs_under o s.lost

module _ {N V : Type 0} {M : Meters} (o : ℕ) where
  settled-act :
      (actions : List (Action N V)) (s : Server N V M)
      → settled o (act actions s) ≡ settled o s + due o actions
  unfolding act
  settled-act [] s = omega arith
  settled-act (write p ∷ actions) s = omega (
    arith,
    settled-act actions (record s { sent = s.sent ++ (p ∷ []) }),
    sent_under-append o s.sent (p ∷ []),
  )
  settled-act (pong opaque time ∷ actions) s = settled-act actions s
  settled-act (queue job ∷ actions) s = omega (
    arith,
    settled-act actions (record s { queued = s.queued ++ (job ∷ []) }),
    jobs_under-append o s.queued (job ∷ []),
  )

  settled-advance :
      (h : InvocationHandler M V) (p : Phase) (s : Server N V M)
      → settled o (advance h p s) ≡ settled o s
  settled-advance h listening s = refl
  settled-advance h has_stat s = refl
  settled-advance h has_handler s = refl

  module _ (R : Reflect V) (T : Tracer) (options : MoaOption) (h : InvocationHandler M V) where
    settled-run_with :
        (cost : ℕ) (s : Server N V M) (job : Job) (rest : List Job)
        (g : Option (InvocationHandler M V))
        → jobs_under o s.queued ≡ one_under o job.opaque + jobs_under o rest
        → settled o (run_with R T options h cost s (job, rest) g) ≤ settled o s
    settled-run_with cost s job rest none e =
        omega (arith, e, jobs_under-append o s.lost (job ∷ []))
    settled-run_with cost s job rest (some g) e = omega (
      arith,
      e,
      sent_under-append o s.sent (send job.opaque (run_job R T cost g job).1),
      sent_under-send N o job.opaque (run_job R T cost g job).1,
    )

    settled-happens :
        (m : Moment N V) (s : Server N V M)
        → settled o (happens R T options h m s) ≤ settled o s + arrived o (m ∷ [])
    unfolding happens
    settled-happens advances s = omega (arith, settled-advance h s.phase s)
    settled-happens (arrives now network ctx) s =
        let app : App M = record { options = options; moa_stat = s.moa_stat } in
        omega (arith, settled-act (dis app now network ctx) s, due-dis o app now network ctx)
    settled-happens (runs i cost) s = elim (Option-cases (take_job i s.queued)) [
      | inl e ↦ rw e (omega arith)
      | inr ((job, rest), e) ↦
          let taken : Takes o s.queued (some (job, rest)) = rw e at (take_job-Takes o i s.queued) in
          rw e (omega (arith, settled-run_with cost s job rest s.handler taken))
    ]

    arrived_step :
        (m : Moment N V) (moments : List (Moment N V))
        → arrived o (m ∷ moments) ≡ arrived o (m ∷ []) + arrived o moments
    arrived_step advances moments = omega arith
    arrived_step (arrives now network ctx) moments = omega arith
    arrived_step (runs i cost) moments = omega arith

    settled-play :
        (moments : List (Moment N V)) (s : Server N V M)
        → settled o (play R T options h moments s) ≤ settled o s + arrived o moments
    unfolding play
    settled-play [] s = omega arith
    settled-play (m ∷ moments) s = omega (
      arith,
      settled-play moments (happens R T options h m s),
      settled-happens m s,
      arrived_step m moments,
    )

    -- However packets arrive, calls run and initApplication goes on, a packet is answered once at
    -- most: the packets that are written under an opaque, the calls that wait under it and the calls
    -- that are lost under it, since they met no handler, are together no more than the packets that
    -- arrived under it. So what is lost is never answered.
    pub play-settled :
        (moments : List (Moment N V))
        → sent_under o (play R T options h moments just_listening).sent
            + jobs_under o (play R T options h moments just_listening).queued
            + jobs_under o (play R T options h moments just_listening).lost
          ≤ arrived o moments
    play-settled moments = omega (arith, settled-play moments just_listening)
