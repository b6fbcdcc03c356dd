-- ===== src/Application/Shutdown.antt =====
-- DestroyApplication of application.go.
pub mod Order
use go_moa.Base.{true, false, ℕ, zero, suc, ◌+◌, ◌==◌, List, [], ◌∷◌, ◌++◌}
use go_moa.Zookeeper.{Ran, done, and_then}
use go_moa.Stat.{Meters, MoaInfo}
use go_moa.Registry.Center.{ConfigCenter, destroy}

-- What is asked of the clock, of the application's context, of the server and of the statistics.
pub data Act : Type 0 where
  sleep_ms : ℕ → Act
  stop : Act
  shutdown : Act
  destroy_stat : Act

-- The rounds from the counter on, one for each that is left: a round ends the loop where the last
-- statistics show no connection, and else sleeps. `infos` are the last statistics at each round.
unfoldable pub wait_from : ℕ → ℕ → (ℕ → MoaInfo) → List Act
wait_from zero check_times infos = []
wait_from (suc left) check_times infos = elim ((infos check_times).connections == 0) [
  | true ↦ []
  | false ↦ sleep_ms 1_000 ∷ wait_from left (check_times + 1) infos
]

abbrev pub closing : List Act
closing = stop ∷ sleep_ms 500 ∷ shutdown ∷ destroy_stat ∷ []

module _ {W : Type 0} {M : Meters} {V : Type 0} where
  unfoldable pub destroy_application : ConfigCenter W M V → (ℕ → MoaInfo) → W → Ran W (List Act)
  unfolding wait_from and_then
  destroy_application c infos w =
      and_then (destroy c w) (λ closed w'. done (wait_from 9 0 infos ++ closing) w')
