-- ===== src/Application/Start/Window.antt =====
-- The server of application.go while it starts. It listens before initApplication has made the
-- statistics and the handler, so packets arrive, and the pool runs queued calls, in between.
pub mod Completed
pub mod Answers
use go_moa.Base.{ℕ, zero, suc, Option, none, some, List, [], ◌∷◌, ◌++◌}
use go_moa.Base.Int.{ℤ}
use go_moa.Config.{MoaOption}
use go_moa.Context.{Tracer}
use go_moa.Stat.{Meters, MoaStat}
use go_moa.Proxy.{Reflect, InvocationHandler}
use go_moa.Protocol.{MoaRespPacket}
use go_moa.Dispatcher.{TContext, Packet, Job, Action, write, pong, queue, App, dis, send, run_job}

-- How far initApplication is.
pub data Phase : Type 0 where
  listening : Phase  -- behind ListenAndServer
  has_stat : Phase  -- app.moaStat is set
  has_handler : Phase  -- app.invokeHandler is set

pub data Moment (N V : Type 0) : Type 0 where
  advances : Moment N V  -- initApplication sets its next field
  arrives : ℤ → N → TContext N V → Moment N V  -- dis on a packet, at a time
  runs : ℕ → ℕ → Moment N V  -- the pool runs a call of its queue, which takes some time

-- The fields of the application, the calls that wait in the pool, what is written, and the calls
-- that met a nil handler, whose panic reaches the pool.
pub record Server (N V : Type 0) (M : Meters) : Type 0 where
  pub phase : Phase
  pub moa_stat : Option (MoaStat M)
  pub handler : Option (InvocationHandler M V)
  pub queued : List Job
  pub sent : List (Packet N V)
  pub lost : List Job

unfoldable pub take_job : ℕ → List Job → Option (Job × List Job)
take_job i [] = none
take_job zero (j ∷ jobs) = some (j, jobs)
take_job (suc i) (j ∷ jobs) = elim (take_job i jobs) [
  | none ↦ none
  | some (k, rest) ↦ some (k, j ∷ rest)
]

module _ {N V : Type 0} {M : Meters} where
  abbrev pub just_listening : Server N V M
  just_listening = record {
    phase = listening;
    moa_stat = none;
    handler = none;
    queued = [];
    sent = [];
    lost = [];
  }

  unfoldable pub act : List (Action N V) → Server N V M → Server N V M
  act [] s = s
  act (write p ∷ actions) s = act actions (record s { sent = s.sent ++ (p ∷ []) })
  act (pong opaque time ∷ actions) s = act actions s
  act (queue job ∷ actions) s = act actions (record s { queued = s.queued ++ (job ∷ []) })

  -- The statistics of the handler are the application's.
  abbrev pub answered :
      Job
      → List Job
      → Server N V M
      → InvocationHandler M V × Option (MoaRespPacket V)
      → Server N V M
  answered job rest s (h, resp) = record s {
    moa_stat = some h.moa_stat;
    handler = some h;
    queued = rest;
    sent = s.sent ++ send job.opaque resp;
  }

  -- initApplication with the handler that it makes.
  abbrev pub advance : InvocationHandler M V → Phase → Server N V M → Server N V M
  advance h listening s = record s { phase = has_stat; moa_stat = some h.moa_stat }
  advance h has_stat s = record s { phase = has_handler; handler = some h }
  advance h has_handler s = s

  module _ (R : Reflect V) (T : Tracer) (options : MoaOption) (h : InvocationHandler M V) where
    abbrev pub run_with :
        ℕ → Server N V M → Job × List Job → Option (InvocationHandler M V) → Server N V M
    run_with cost s (job, rest) none = record s { queued = rest; lost = s.lost ++ (job ∷ []) }
    run_with cost s (job, rest) (some g) = answered job rest s (run_job R T cost g job)

    abbrev pub run_taken : ℕ → Server N V M → Option (Job × List Job) → Server N V M
    run_taken cost s none = s
    run_taken cost s (some taken) = run_with cost s taken s.handler

    unfoldable pub happens : Moment N V → Server N V M → Server N V M
    unfolding act take_job
    happens advances s = advance h s.phase s
    happens (arrives now network ctx) s =
        act (dis (record { options = options; moa_stat = s.moa_stat }) now network ctx) s
    happens (runs i cost) s = run_taken cost s (take_job i s.queued)

    unfoldable pub play : List (Moment N V) → Server N V M → Server N V M
    play [] s = s
    play (m ∷ moments) s = play moments (happens m s)
