-- ===== src/Proxy/Concurrent/Schedule.antt =====
-- The steps of the counting in proxy.go in a given order.
use go_moa.Base.{
  ℕ, ◌+◌, ◌-◌, ◌≤◌, ◌<◌, true, ◌≡◌, refl, ◌∙◌, ap, inl, inr, Text, List, [], ◌∷◌, All, lookup, ◌==◌,
  ==_iff, if◌then◌else◌, arith, Bool-cases, Option-cases,
}
use go_moa.Stat.{Meters}
use go_moa.Proxy.Concurrent.{
  Heap, Call, Pc, arrived, client_missed, has_map, flow_missed, has_flow, counted,
  load_or_store_client, load_or_store_flow, turn, System, runs, forgets, run, forget, Reach, later,
}
use go_moa.Proxy.Concurrent.Turns.{is_counted}

pub data Event : Type 0 where
  runs_one : ℕ → Event
  timer : Text → Event

-- How often a goroutine comes to run.
abbrev pub turns_of : ℕ → List Event → ℕ
turns_of i [] = 0
turns_of i (runs_one j ∷ es) = (if j == i then 1 else 0) + turns_of i es
turns_of i (timer client ∷ es) = turns_of i es

-- The steps that a goroutine has left at most.
abbrev left : Pc → ℕ
left arrived = 5
left client_missed = 4
left (has_map m) = 3
left (flow_missed m) = 2
left (has_flow f) = 1
left counted = 0

module _ (M : Meters) where
  unfoldable pub play : List Event → System M → System M
  play [] s = s
  play (runs_one i ∷ es) s = play es (runs M i s)
  play (timer client ∷ es) s = play es (forgets M client s)

  -- An event of one of the first `n` goroutines, or of the timer about a client that need not stay.
  abbrev pub Allowed : ℕ → (Text → Type 0) → Event → Type 0
  Allowed n Stays (runs_one i) = i < n
  Allowed n Stays (timer client) = ¬ Stays client

  pub Reach-play :
      (n : ℕ) (Stays : Text → Type 0) (calls : ℕ → Call) (es : List Event) (s : System M)
      → All (Allowed n Stays) es
      → Reach M n Stays calls s
      → Reach M n Stays calls (play es s)
  unfolding play
  Reach-play n Stays calls [] s a r = r
  Reach-play n Stays calls (runs_one i ∷ es) s (l, a) r =
      Reach-play n Stays calls es (runs M i s) a (later r (run i l))
  Reach-play n Stays calls (timer client ∷ es) s (f, a) r =
      Reach-play n Stays calls es (forgets M client s) a (later r (forget client f))

  left-turn : (c : Call) (h : Heap M) (p : Pc) → left (turn M c h p).1 ≤ left p - 1
  unfolding turn load_or_store_client load_or_store_flow
  left-turn c h arrived = elim (Option-cases (lookup c.source h.clients)) [
    | inl e ↦ rw e (omega arith)
    | inr (m, e) ↦ rw e (omega arith)
  ]
  left-turn c h client_missed = elim (Option-cases (lookup c.source h.clients)) [
    | inl e ↦ rw e (omega arith)
    | inr (m, e) ↦ rw e (omega arith)
  ]
  left-turn c h (has_map m) = elim (Option-cases (lookup c.name (h.maps m))) [
    | inl e ↦ rw e (omega arith)
    | inr (f, e) ↦ rw e (omega arith)
  ]
  left-turn c h (flow_missed m) = elim (Option-cases (lookup c.name (h.maps m))) [
    | inl e ↦ rw e (omega arith)
    | inr (f, e) ↦ rw e (omega arith)
  ]
  left-turn c h (has_flow f) = omega arith
  left-turn c h counted = omega arith

  left-runs :
      (i j : ℕ) (s : System M)
      → left ((runs M j s).goroutines i).pc ≤ left (s.goroutines i).pc - (if j == i then 1 else 0)
  unfolding runs
  left-runs i j s = elim (Bool-cases (j == i)) [
    | inr e ↦ rw e (omega arith)
    | inl e ↦
        let same : j ≡ i = (==_iff j i).0 e in
        rw (e, same) (left-turn (s.goroutines i).call s.heap (s.goroutines i).pc)
  ]

  left-play :
      (i : ℕ) (es : List Event) (s : System M)
      → left ((play es s).goroutines i).pc ≤ left (s.goroutines i).pc - turns_of i es
  unfolding play forgets
  left-play i [] s = omega arith
  left-play i (runs_one j ∷ es) s = omega (arith, left-play i es (runs M j s), left-runs i j s)
  left-play i (timer client ∷ es) s = left-play i es (forgets M client s)

  counted_of_left : (p : Pc) → left p ≤ 0 → is_counted p ≡ true
  counted_of_left arrived l = absurd (omega (arith, l))
  counted_of_left client_missed l = absurd (omega (arith, l))
  counted_of_left (has_map m) l = absurd (omega (arith, l))
  counted_of_left (flow_missed m) l = absurd (omega (arith, l))
  counted_of_left (has_flow f) l = absurd (omega (arith, l))
  counted_of_left counted l = refl

  left_five : (p : Pc) → left p ≤ 5
  left_five arrived = omega arith
  left_five client_missed = omega arith
  left_five (has_map m) = omega arith
  left_five (flow_missed m) = omega arith
  left_five (has_flow f) = omega arith
  left_five counted = omega arith

  -- The counting waits for nobody: whatever the others do in between, a goroutine has counted its call
  -- when it has come to run five times.
  pub play-counted :
      (i : ℕ) (es : List Event) (s : System M)
      → 5 ≤ turns_of i es
      → is_counted ((play es s).goroutines i).pc ≡ true
  play-counted i es s l =
      counted_of_left ((play es s).goroutines i).pc
        (omega (arith, l, left-play i es s, left_five (s.goroutines i).pc))

  -- A goroutine keeps its call.
  call-runs : (i j : ℕ) (s : System M) → ((runs M j s).goroutines i).call ≡ (s.goroutines i).call
  unfolding runs
  call-runs i j s = elim (Bool-cases (j == i)) [
    | inl e ↦ let same : j ≡ i = (==_iff j i).0 e in rw e (ap (λ k. (s.goroutines k).call) same)
    | inr e ↦ rw e refl
  ]

  pub call-play :
      (i : ℕ) (es : List Event) (s : System M)
      → ((play es s).goroutines i).call ≡ (s.goroutines i).call
  unfolding play forgets
  call-play i [] s = refl
  call-play i (runs_one j ∷ es) s = call-play i es (runs M j s) ∙ call-runs i j s
  call-play i (timer client ∷ es) s = call-play i es (forgets M client s)
