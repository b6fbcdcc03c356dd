-- ===== src/Registry/Center/Contract.antt =====
-- What the center of registry.go expects of a registry that publishes.
use go_moa.Base.{true, ◌≡◌, Text, Option, none, some, if◌then◌else◌, text_eq}
use go_moa.Registry.{ServiceMeta, protocol}
use go_moa.Registry.Uri.{build_service_uri}
use go_moa.Zookeeper.{done}
use go_moa.Registry.Center.{IRegistry}

-- At an address, a meta can be published under each key. Where the key is open, RegisteService
-- publishes exactly this one, and UnRegisteService takes exactly this one off; open keys stay open.
pub record Publishes {W : Type 0} (I : IRegistry W) (hostport : Text) : Type 1 where
  pub published : Text → W → Option ServiceMeta
  pub Open : Text → W → Type 0
  pub Encodes : ServiceMeta → Type 0
  pub register :
      (uri group : Text) (meta : ServiceMeta) (w : W)
      → Open (build_service_uri uri group) w
      → Encodes meta
      → (w' : W) × (I.registe_service uri hostport protocol group meta w ≡ done true w')
        × ((key : Text)
            → published key w'
              ≡ (if text_eq (build_service_uri uri group) key then some meta else published key w))
        × ((key : Text) → Open key w → Open key w')
  pub withdraw :
      (uri group : Text) (w : W)
      → Open (build_service_uri uri group) w
      → (w' : W) × (I.un_registe_service uri hostport protocol group w ≡ done true w')
        × ((key : Text)
            → published key w'
              ≡ (if text_eq (build_service_uri uri group) key then none else published key w))
        × ((key : Text) → Open key w → Open key w')
