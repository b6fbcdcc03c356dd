-- ===== src/Application/Shutdown/Order.antt =====
-- How DestroyApplication of application.go ends, and in what order.
use go_moa.Base.{ℕ, zero, suc, ◌≤◌, ◌<◌, ◌≡◌, ◌⊎◌, List, [], ◌∷◌}
use go_moa.Stat.{MoaInfo}
use go_moa.Application.Shutdown.{Act, sleep_ms}

-- That many seconds, slept one at a time.
unfoldable pub sleeps : ℕ → List Act
sleeps zero = []
sleeps (suc n) = sleep_ms 1_000 ∷ sleeps n

abbrev pub IsQuiet : (ℕ → MoaInfo) → ℕ → Type 0
IsQuiet infos i = (infos i).connections ≡ 0

-- The wait ends after the first quiet round, or after so many.
abbrev pub EndsAfter : (ℕ → MoaInfo) → ℕ → ℕ → Type 0
EndsAfter infos limit n =
    (n ≤ limit) × ((i : ℕ) → i < n → ¬ IsQuiet infos i) × ((n ≡ limit) ⊎ IsQuiet infos n)
