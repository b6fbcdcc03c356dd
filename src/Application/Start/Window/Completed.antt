-- ===== src/Application/Start/Window/Completed.antt =====
-- A start of application.go against a server that has its handler from the beginning.
use go_moa.Base.{ℕ, ◌≡◌, refl, ap, ◌∙◌, false, Option, none, some, List, [], ◌∷◌, ◌++◌, ◌==◌}
use go_moa.Base.Int.{ℤ}
use go_moa.Config.{MoaOption}
use go_moa.Context.{Tracer}
use go_moa.Protocol.{info_cmd}
use go_moa.Stat.{Meters, MoaStat}
use go_moa.Proxy.{Reflect, InvocationHandler}
use go_moa.Dispatcher.{TContext, Action, write, pong, queue, dis, Job, run_job, send}
use go_moa.Dispatcher.Carried.{dis_any_stat}
use go_moa.Application.Start.Window.{
  Phase, listening, has_stat, has_handler, Moment, advances, arrives, runs, Server, just_listening,
  act, take_job, run_taken, happens, play,
}

module _ {N V : Type 0} where
  -- No call is run before the handler is there, and no INFO packet comes before the statistics are.
  abbrev IsTimely : Phase → Moment N V → Type 0
  IsTimely listening (arrives now network ctx) = (ctx.message.cmd_type == info_cmd) ≡ false
  IsTimely listening (runs i cost) = ⊥
  IsTimely has_stat (runs i cost) = ⊥
  IsTimely _ _ = Unit

  abbrev next_phase : Phase → Moment N V → Phase
  next_phase listening advances = has_stat
  next_phase has_stat advances = has_handler
  next_phase p _ = p

  abbrev pub AreTimely : Phase → List (Moment N V) → Type 0
  AreTimely p [] = Unit
  AreTimely p (m ∷ moments) = IsTimely p m × AreTimely (next_phase p m) moments

module _ {N V : Type 0} {M : Meters} where
  abbrev pub set_fields :
      Phase → Option (MoaStat M) → Option (InvocationHandler M V) → Server N V M → Server N V M
  set_fields p m g s = record s { phase = p; moa_stat = m; handler = g }

  act-set_fields :
      (p : Phase) (m : Option (MoaStat M)) (g : Option (InvocationHandler M V))
      (actions : List (Action N V)) (s : Server N V M)
      → act actions (set_fields p m g s) ≡ set_fields p m g (act actions s)
  unfolding act
  act-set_fields p m g [] s = refl
  act-set_fields p m g (write x ∷ actions) s = act-set_fields p m g actions _
  act-set_fields p m g (pong opaque time ∷ actions) s = act-set_fields p m g actions s
  act-set_fields p m g (queue job ∷ actions) s = act-set_fields p m g actions _

  act_lost : (actions : List (Action N V)) (s : Server N V M) → (act actions s).lost ≡ s.lost
  unfolding act
  act_lost [] s = refl
  act_lost (write x ∷ actions) s = act_lost actions _
  act_lost (pong opaque time ∷ actions) s = act_lost actions s
  act_lost (queue job ∷ actions) s = act_lost actions _

  module _ (R : Reflect V) (T : Tracer) (options : MoaOption) (h : InvocationHandler M V) where
    abbrev Same : Server N V M → Server N V M → Type 0
    Same s t = (s.sent ≡ t.sent) × (s.queued ≡ t.queued) × (s.lost ≡ t.lost)

    abbrev pub ready : Server N V M → Server N V M
    ready s = set_fields has_handler (some h.moa_stat) (some h) s

    abbrev on_arrival : Option (MoaStat M) → ℤ → N → TContext N V → List (Action N V)
    on_arrival m now network ctx = dis (record { options = options; moa_stat = m }) now network ctx

    follow :
        (moments : List (Moment N V)) {a a' b b' : Server N V M}
        → a ≡ a'
        → b ≡ b'
        → Same (play R T options h moments a') (play R T options h moments b')
        → Same (play R T options h moments a) (play R T options h moments b)
    follow moments e f k = rw (e, f) k

    play-with_stat :
        (moments : List (Moment N V)) (s : Server N V M)
        → AreTimely has_stat moments
        → Same
            (play R T options h moments (set_fields has_stat (some h.moa_stat) none s))
            (play R T options h moments (ready s))
    unfolding play happens
    play-with_stat [] s t = (refl, refl, refl)
    play-with_stat (advances ∷ moments) s (t, ts) = (refl, refl, refl)
    play-with_stat (arrives now network ctx ∷ moments) s (t, ts) =
        follow moments
          (act-set_fields has_stat (some h.moa_stat) none
            (on_arrival (some h.moa_stat) now network ctx) s)
          (act-set_fields has_handler (some h.moa_stat) (some h)
            (on_arrival (some h.moa_stat) now network ctx) s)
          (play-with_stat moments (act (on_arrival (some h.moa_stat) now network ctx) s) ts)
    play-with_stat (runs i cost ∷ moments) s (t, ts) = absurd t

    play-with_none :
        (moments : List (Moment N V)) (s : Server N V M)
        → AreTimely listening moments
        → Same
            (play R T options h moments (set_fields listening none none s))
            (play R T options h moments (ready s))
    unfolding play happens
    play-with_none [] s t = (refl, refl, refl)
    play-with_none (advances ∷ moments) s (t, ts) = play-with_stat moments s ts
    play-with_none (arrives now network ctx ∷ moments) s (t, ts) =
        follow moments (act-set_fields listening none none (on_arrival none now network ctx) s)
          (act-set_fields has_handler (some h.moa_stat) (some h)
              (on_arrival (some h.moa_stat) now network ctx) s
            ∙ ap (λ actions. ready (act actions s))
                (dis_any_stat options (some h.moa_stat) none now network ctx t))
          (play-with_none moments (act (on_arrival none now network ctx) s) ts)
    play-with_none (runs i cost ∷ moments) s (t, ts) = absurd t

    after_run :
        (moments : List (Moment N V))
        → ((m : Option (MoaStat M)) (g : InvocationHandler M V) (s : Server N V M)
            → (play R T options h moments (set_fields has_handler m (some g) s)).lost ≡ s.lost)
        → (cost : ℕ) (m : Option (MoaStat M)) (g : InvocationHandler M V) (s : Server N V M)
          (taken : Option (Job × List Job))
        → (play R T options h moments
            (run_taken R T options h cost (set_fields has_handler m (some g) s) taken)).lost
          ≡ s.lost
    after_run moments k cost m g s none = k m g s
    after_run moments k cost m g s (some (job, rest)) =
        let out = run_job R T cost g job in
        k (some out.0.moa_stat) out.0
          (record s { queued = rest; sent = s.sent ++ send job.opaque out.1 })

    -- A call never meets a nil handler once the handler is there.
    none_lost :
        (moments : List (Moment N V)) (m : Option (MoaStat M)) (g : InvocationHandler M V)
        (s : Server N V M)
        → (play R T options h moments (set_fields has_handler m (some g) s)).lost ≡ s.lost
    unfolding play happens
    none_lost [] m g s = refl
    none_lost (advances ∷ moments) m g s = none_lost moments m g s
    none_lost (arrives now network ctx ∷ moments) m g s =
        ap (λ x. (play R T options h moments x).lost)
          (act-set_fields has_handler m (some g) (on_arrival m now network ctx) s)
        ∙ none_lost moments m g (act (on_arrival m now network ctx) s)
        ∙ act_lost (on_arrival m now network ctx) s
    none_lost (runs i cost ∷ moments) m g s =
        after_run moments (none_lost moments) cost m g s (take_job i s.queued)

    -- Where no call is run before the handler is there and no INFO packet comes before the statistics
    -- are, the early start of the server shows nowhere: what it writes and what waits in its pool is
    -- what a server that has its handler from the beginning writes and has waiting, and no call is
    -- lost.
    pub play-ready :
        (moments : List (Moment N V))
        → AreTimely listening moments
        → ((play R T options h moments just_listening).sent
            ≡ (play R T options h moments (ready just_listening)).sent)
          × ((play R T options h moments just_listening).queued
              ≡ (play R T options h moments (ready just_listening)).queued)
          × ((play R T options h moments just_listening).lost ≡ [])
    play-ready moments t =
        let (sent, queued, lost) = play-with_none moments just_listening t in
        (sent, queued, lost ∙ none_lost moments (some h.moa_stat) h just_listening)
