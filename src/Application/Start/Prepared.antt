-- ===== src/Application/Start/Prepared.antt =====
-- The services that initApplication of application.go prepares.
use go_moa.Base.{Text, ap, ◌≡◌, refl, ◌∙◌, Bool, [], ◌∷◌, Lacks}
use go_moa.Registry.{group_mark}
use go_moa.Registry.Uri.{build_service_uri, unwrap_service_uri}
use go_moa.Registry.Uri.Laws.{unwrap-build, group_of}
use go_moa.Stat.{Meters}
use go_moa.Proxy.{Service}
use go_moa.Application.Start.{prepare}

prepared_group :
    {M : Meters} {V : Type 0} (is_pre : Bool) (s : Service M V)
    → (prepare is_pre s).group_id ≡ group_of s.group_id
unfolding prepare
prepared_group is_pre s = refl

group_of_twice : (g : Text) → group_of (group_of g) ≡ group_of g
group_of_twice [] = refl
group_of_twice (c ∷ g) = refl

-- The key under which the center publishes a prepared service with no '#' in its URI is taken apart
-- into exactly the URI and the group that its meta says.
pub unwrap-prepare :
    {M : Meters} {V : Type 0} (is_pre : Bool) (s : Service M V)
    → Lacks group_mark s.service_uri
    → unwrap_service_uri
        (build_service_uri (prepare is_pre s).service_uri (prepare is_pre s).group_id)
      ≡ ((prepare is_pre s).service_uri, (prepare is_pre s).group_id)
unfolding prepare
unwrap-prepare is_pre s h =
    unwrap-build s.service_uri (group_of s.group_id) h
    ∙ ap (λ g. (s.service_uri, g)) (group_of_twice s.group_id)
