-- ===== src/Application/Purge.antt =====
-- The timer of initApplication in application.go, which forgets the clients that are gone.
pub mod Laws
pub mod AfterBuild
use go_moa.Base.{
  ℕ, Bool, true, false, not, ◌≡◌, ◌≢◌, refl, Text, Option, none, some, List, [], ◌∷◌, ◌||◌, ◌==◌,
  if◌then◌else◌, length, map, keep, any, All, Assoc, lookup, delete, sort_strings, text_eq,
}
use go_moa.Base.Search.{at, search_strings}
use go_moa.Proxy.{Invokes, Service}
use go_moa.Stat.{Meters}

-- A client that is not in the sorted slice: no index, or another text there.
unfoldable pub is_gone : List Text → Text → Bool
is_gone allclients clientip =
    (search_strings allclients clientip == length allclients)
    || not (at (text_eq clientip) allclients (search_strings allclients clientip))

module _ {ℓ} {F : Type ℓ} where
  abbrev pub clients_of : Assoc F → List Text
  clients_of = map (λ e. e.0)

  unfoldable pub remove_clients : List Text → Assoc F → Assoc F
  remove_clients [] invokes = invokes
  remove_clients (clientip ∷ rest) invokes = remove_clients rest (delete clientip invokes)

  -- The clients are collected before any is removed.
  unfoldable pub purge_invokes : List Text → Assoc F → Assoc F
  unfolding remove_clients is_gone
  purge_invokes allclients invokes =
      remove_clients (keep (is_gone allclients) (clients_of invokes)) invokes

module _ {M : Meters} {V : Type 0} where
  with_purged : List Text → Service M V → Option (Invokes M) → Option (Service M V)
  unfolding purge_invokes
  with_purged allclients s none = none
  with_purged allclients s (some invokes) =
      some (record s { invokes_per_client = some (purge_invokes allclients invokes) })

  -- The map of a service is nil where its interface has no method; Range then panics.
  unfoldable pub purge_service : List Text → Service M V → Option (Service M V)
  unfolding with_purged
  purge_service allclients s = with_purged allclients s s.invokes_per_client

  purge_rest :
      Text → Option (Service M V) → Option (Assoc (Service M V)) → Option (Assoc (Service M V))
  purge_rest uri none rest = none
  purge_rest uri (some s) none = none
  purge_rest uri (some s) (some rest) = some ((uri, s) ∷ rest)

  unfoldable pub purge_each : List Text → Assoc (Service M V) → Option (Assoc (Service M V))
  unfolding purge_service purge_rest
  purge_each allclients [] = some []
  purge_each allclients ((uri, s) ∷ instances) =
      purge_rest uri (purge_service allclients s) (purge_each allclients instances)

  -- A round of the timer, with the clients that the server lists; none is a panic.
  unfoldable pub purge : List Text → Assoc (Service M V) → Option (Assoc (Service M V))
  unfolding purge_each
  purge allclients instances = purge_each (sort_strings allclients) instances

-- What becomes of a round.
pub data Round {ℓ} (A : Type ℓ) : Type ℓ where
  cancelled : Round A
  purged : A → Round A
  panicked : Round A

abbrev round_of {ℓ} : {A : Type ℓ} → Option A → Round A
round_of none = panicked
round_of (some a) = purged a

-- The function of the timer, where `is_done` is whether the context of the application is: then it
-- cancels itself.
unfoldable pub on_timer :
    {M : Meters} {V : Type 0} → Bool → List Text → Assoc (Service M V) → Round (Assoc (Service M V))
unfolding purge
on_timer is_done allclients instances =
    if is_done then cancelled else round_of (purge allclients instances)
