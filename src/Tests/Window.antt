-- ===== src/Tests/Window.antt =====
-- A server that gets a request while it starts.
use go_moa.Base.{ℕ, ◌+◌, ◌≤◌, ◌≡◌, refl, List, [], ◌∷◌, text_eq, lookup}
use go_moa.Base.Int.{pos, sub_i64, mul_i64}
use go_moa.Dispatcher.{dis, is_expired, process_timeout}
use go_moa.Dispatcher.Due.{sent_under, jobs_under}
use go_moa.Application.Start.Window.{
  Moment, Server, advances, arrives, runs, just_listening, play, happens, act, take_job,
}
use go_moa.Application.Start.Window.Completed.{play-ready, ready}
use go_moa.Application.Start.Window.Answers.{arrived, play-settled}
use go_moa.Tests.Stat.{counting}
use go_moa.Tests.Proxy.{reflect, tracer, handler}
use go_moa.Tests.Dispatcher.{app, ctx}

abbrev end_of : List (Moment ℕ ℕ) → Server ℕ ℕ counting → Server ℕ ℕ counting
end_of moments s = play reflect tracer app.options handler moments s

-- The request comes early, and its call is run in time.
abbrev late_call : List (Moment ℕ ℕ)
late_call = arrives (pos 1_500_000_000) 0 ctx ∷ advances ∷ advances ∷ runs 0 3 ∷ []

play-ready_example :
    ((end_of late_call just_listening).sent
      ≡ (end_of late_call (ready reflect tracer app.options handler just_listening)).sent)
    × ((end_of late_call just_listening).queued
        ≡ (end_of late_call (ready reflect tracer app.options handler just_listening)).queued)
    × ((end_of late_call just_listening).lost ≡ [])
play-ready_example =
    play-ready reflect tracer app.options handler late_call (refl, (tt, (tt, (tt, tt))))

-- The call is run too early.
abbrev early_call : List (Moment ℕ ℕ)
early_call = arrives (pos 1_500_000_000) 0 ctx ∷ runs 0 3 ∷ advances ∷ advances ∷ []

play-settled_example :
    sent_under 7 (end_of early_call just_listening).sent
      + jobs_under 7 (end_of early_call just_listening).queued
      + jobs_under 7 (end_of early_call just_listening).lost
    ≤ arrived 7 early_call
play-settled_example = play-settled 7 reflect tracer app.options handler early_call

early_lost : jobs_under 7 (end_of early_call just_listening).lost ≡ 1
unfolding play happens act take_job dis is_expired process_timeout lookup text_eq sub_i64 mul_i64
early_lost = refl
