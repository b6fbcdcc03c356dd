-- ===== src/Registry/Center/Publish.antt =====
-- What RegisteAllServices and Destroy of registry.go publish and take off.
use go_moa.Base.{
  true, ◌≡◌, ◌≢◌, refl, ◌∙◌, Text, none, some, List, [], ◌∷◌, All, text_eq_iff, text_eq_refl, arith,
}
use go_moa.Registry.Uri.{build_service_uri}
use go_moa.Zookeeper.{done, and_then}
use go_moa.Stat.{Meters}
use go_moa.Proxy.{Service}
use go_moa.Registry.Center.{
  ConfigCenter, registe_service, published_meta, registe_each, registe_all_services,
  un_registe_service, un_registe_each, destroy,
}
use go_moa.Registry.Center.Contract.{Publishes}

module _ {W : Type 0} {M : Meters} {V : Type 0} (c : ConfigCenter W M V)
    (L : Publishes c.registry c.hostport) where
  open L use {published, Open, Encodes}

  abbrev pub key_of : Service M V → Text
  key_of s = build_service_uri s.service_uri s.group_id

  -- Another service than those with this key.
  abbrev pub Misses : Text → List (Service M V) → Type 0
  Misses key = All (λ s. key_of s ≢ key)

  abbrev pub IsDistinct : List (Service M V) → Type 0
  IsDistinct [] = Unit
  IsDistinct (s ∷ ss) = Misses (key_of s) ss × IsDistinct ss

  -- The key of the service is open, and its meta can be written.
  abbrev pub CanPublish : W → Service M V → Type 0
  CanPublish w s = Open (key_of s) w × Encodes (published_meta c s)

  abbrev Publishing : List (Service M V) → W → W → Type 0
  Publishing ss w w' =
      All (λ s. published (key_of s) w' ≡ some (published_meta c s)) ss
      × ((key : Text) → Misses key ss → published key w' ≡ published key w)
      × ((key : Text) → Open key w → Open key w')

  pub still_open :
      (w w' : W) (ss : List (Service M V))
      → ((key : Text) → Open key w → Open key w')
      → All (CanPublish w) ss
      → All (CanPublish w') ss
  still_open w w' [] keeps h = tt
  still_open w w' (s ∷ ss) keeps ((o, e), h) = ((keeps (key_of s) o, e), still_open w w' ss keeps h)

  registe_each-Publishing :
      (ss : List (Service M V)) (w : W)
      → All (CanPublish w) ss
      → IsDistinct ss
      → (w' : W) × (registe_each c ss w ≡ done true w') × Publishing ss w w'
  unfolding registe_each registe_service and_then
  registe_each-Publishing [] w h d = (w, refl, (tt, (λ key m. refl), (λ key o. o)))
  registe_each-Publishing (s ∷ ss) w ((o, e), h) (d, ds) =
      let (w1, k, sets, keeps) = L.register s.service_uri s.group_id (published_meta c s) w o e in
      let (w', k', (all, others, opens)) =
        registe_each-Publishing ss w1 (still_open w w1 ss keeps h) ds in
      (
        w',
        rw (k, and_then) k',
        (
          (others (key_of s) d ∙ (sets (key_of s) ∙ rw (text_eq_refl (key_of s)) refl), all),
          (λ key m. others key m.1 ∙ ground (arith, m.0, sets key, text_eq_iff (key_of s) key)),
          (λ key o'. opens key (keeps key o')),
        ),
      )

  -- Where the services have different keys, which are open, and their metas can be written:
  -- RegisteAllServices succeeds, every service is published under its key with the center's address,
  -- and what is published under other keys stays. Open keys stay open.
  pub registe_all_services-published :
      (w : W)
      → All (CanPublish w) c.services
      → IsDistinct c.services
      → (w' : W) × (registe_all_services c w ≡ done true w')
        × All (λ s. published (key_of s) w' ≡ some (published_meta c s)) c.services
        × ((key : Text) → Misses key c.services → published key w' ≡ published key w)
        × ((key : Text) → Open key w → Open key w')
  unfolding registe_all_services
  registe_all_services-published w h d =
      let (w', k, (all, others, opens)) = registe_each-Publishing c.services w h d in
      (w', k, all, others, opens)

  abbrev pub AllOpen : W → List (Service M V) → Type 0
  AllOpen w = All (λ s. Open (key_of s) w)

  all_open :
      (w w' : W) (ss : List (Service M V))
      → ((key : Text) → Open key w → Open key w')
      → AllOpen w ss
      → AllOpen w' ss
  all_open w w' [] keeps h = tt
  all_open w w' (s ∷ ss) keeps (o, h) = (keeps (key_of s) o, all_open w w' ss keeps h)

  -- Nothing is published under the keys of these services, and at most what was there under others;
  -- open keys stay open.
  abbrev Withdrawn : List (Service M V) → W → W → Type 0
  Withdrawn ss w w' =
      All (λ s. published (key_of s) w' ≡ none) ss
      × ((key : Text) → published key w ≡ none → published key w' ≡ none)
      × ((key : Text) → Misses key ss → published key w' ≡ published key w)
      × ((key : Text) → Open key w → Open key w')

  un_registe_each-Withdrawn :
      (ss : List (Service M V)) (w : W)
      → AllOpen w ss
      → (w' : W) × (un_registe_each c ss w ≡ done true w') × Withdrawn ss w w'
  unfolding un_registe_each un_registe_service and_then
  un_registe_each-Withdrawn [] w h = (w, refl, (tt, (λ key e. e), (λ key m. refl), (λ key o. o)))
  un_registe_each-Withdrawn (s ∷ ss) w (o, h) =
      let (w1, k, sets, keeps) = L.withdraw s.service_uri s.group_id w o in
      let (w', k', (all, none_stays, others, opens)) =
        un_registe_each-Withdrawn ss w1 (all_open w w1 ss keeps h) in
      (
        w',
        rw (k, and_then) k',
        (
          (none_stays (key_of s) (sets (key_of s) ∙ rw (text_eq_refl (key_of s)) refl), all),
          (λ key e. none_stays key (ground (arith, e, sets key))),
          (λ key m. others key m.1 ∙ ground (arith, m.0, sets key, text_eq_iff (key_of s) key)),
          (λ key o'. opens key (keeps key o')),
        ),
      )

  -- Where the keys of its services are open, Destroy takes every one of them off and no other before
  -- it closes the registry. The keys are still open then.
  pub destroy-withdrawn :
      (w : W)
      → AllOpen w c.services
      → (w' : W) × (destroy c w ≡ c.registry.destroy w')
        × All (λ s. published (key_of s) w' ≡ none) c.services
        × ((key : Text) → Misses key c.services → published key w' ≡ published key w)
        × AllOpen w' c.services
  unfolding destroy and_then
  destroy-withdrawn w h =
      let (w', k, (all, _, others, opens)) = un_registe_each-Withdrawn c.services w h in
      (w', rw (k, and_then, destroy) refl, all, others, all_open w w' c.services opens h)
