-- ===== src/Registry/File/Lookup.antt =====
-- GetService of registry_file.go on a registry loaded from a file: which nodes it answers.
use go_moa.Base.{
  Text, Bool, true, false, ◌≡◌, ◌≢◌, subst, ◌∙◌, sym, ap, Option, some, List, [], ◌∷◌, ◌&&◌,
  text_eq, text_eq_iff, arith, keep, keep_twice, gather, All, All-append, Lacks, map,
}
use go_moa.Registry.{ServiceMeta, group_mark}
use go_moa.Registry.Uri.{build_service_uri}
use go_moa.Registry.Uri.Laws.{build-injective, group_of}
use go_moa.Registry.File.{
  LocalService, FileRegistry, with_protocol, meta_of, add_clusters, opened, new_file_registry,
  metas, or_no_hosts, has_proto, get_service,
}
use go_moa.Registry.File.Index.{nodes, key_of, metas_at-nil, add_clusters_index, get_service_lem}

-- A node is wanted if its key and its protocol are the ones asked for.
abbrev pub wanted : Text → Text → Text → ServiceMeta → Bool
wanted u p g m = text_eq (key_of m) (build_service_uri u g) && has_proto p m

-- A client registry whose file parses into `cs` opens, and GetService answers exactly the nodes of
-- the file under the key of the service and group and with the protocol, in the file's order; where
-- there is none, it answers the error "No Hosts!".
pub get_service-new_file_registry :
    (raw : Text) (unmarshal : Text → Option (List LocalService)) (service : List Text)
    (cs : List LocalService) (u p g : Text)
    → unmarshal raw ≡ some cs
    → (r : FileRegistry) × (new_file_registry (some raw) unmarshal service false ≡ opened r)
      × (get_service r u p g ≡ or_no_hosts p u (keep (wanted u p g) (gather nodes cs)))
unfolding new_file_registry
get_service-new_file_registry raw unmarshal service cs u p g e =
    (registry, rw (e, new_file_registry), answer)
  where
    registry : FileRegistry
    registry = record {
      service = service;
      uri2_services = add_clusters cs [];
      server_model = false;
    }

    answer : get_service registry u p g ≡ or_no_hosts p u (keep (wanted u p g) (gather nodes cs))
    answer = rw (
      get_service_lem,
      add_clusters_index cs [] (build_service_uri u g),
      metas_at-nil,
      keep_twice,
    )

and-true : (a b : Bool) → (a && b) ≡ true → (a ≡ true) × (b ≡ true)
and-true a b h = ground arith

module _ {ℓ} {A : Type ℓ} where
  All-keep {κ ν} :
      (P : A → Type κ) (Q : A → Type ν) (p : A → Bool)
      → ((a : A) → p a ≡ true → P a → Q a)
      → (xs : List A) → All P xs
      → All Q (keep p xs)
  All-keep P Q p f [] h = tt
  All-keep P Q p f (x ∷ xs) h = ground (arith, All-keep P Q p f xs h.1, f x)

-- Names of services hold no '#'.
abbrev pub IsPlain : LocalService → Type 0
IsPlain s = Lacks group_mark s.service_uri

nodes-plain :
    (s : LocalService) (hps : List Text)
    → IsPlain s
    → All (λ m. Lacks group_mark m.service_uri) (map (meta_of (with_protocol s)) hps)
unfolding with_protocol
nodes-plain s [] h = tt
nodes-plain s (hp ∷ hps) h = ground (arith, nodes-plain s hps h)

gather-plain :
    (cs : List LocalService)
    → All IsPlain cs
    → All (λ m. Lacks group_mark m.service_uri) (gather nodes cs)
gather-plain [] h = tt
gather-plain (s ∷ cs) h =
    All-append _ (nodes s) (gather nodes cs) (nodes-plain s s.host_ports h.0) (gather-plain cs h.1)

-- A node of the service and group asked for.
abbrev pub Serves : Text → Text → Text → ServiceMeta → Type 0
Serves u p g m = (m.service_uri ≡ u) × (group_of m.group_id ≡ group_of g) × (m.proto_version ≡ p)

wanted-Serves :
    (u p g : Text) (m : ServiceMeta)
    → Lacks group_mark u
    → wanted u p g m ≡ true
    → Lacks group_mark m.service_uri
    → Serves u p g m
wanted-Serves u p g m h w k =
    let same = and-true (text_eq (key_of m) (build_service_uri u g)) (has_proto p m) w in
    let parts =
      (build-injective m.service_uri u m.group_id g k h).0 ((text_eq_iff (key_of m) _).0 same.0) in
    (parts.0, parts.1, (text_eq_iff m.proto_version p).0 same.1)

or_no_hosts-metas :
    (u p : Text) (hs ms : List ServiceMeta) → or_no_hosts p u hs ≡ metas ms → (hs ≡ ms) × (ms ≢ [])
or_no_hosts-metas u p [] ms e = cc
or_no_hosts-metas u p (h ∷ hs) ms e = ground arith

-- Isolation of groups: where no service name of the file nor the one asked for holds '#', whatever
-- GetService answers is not empty and holds only nodes of that service, that group (the empty group
-- and "*" count as one) and that protocol.
get_service_isolated :
    (raw : Text) (unmarshal : Text → Option (List LocalService)) (service : List Text)
    (cs : List LocalService) (r : FileRegistry) (u p g : Text) (ms : List ServiceMeta)
    → unmarshal raw ≡ some cs
    → new_file_registry (some raw) unmarshal service false ≡ opened r
    → All IsPlain cs
    → Lacks group_mark u
    → get_service r u p g ≡ metas ms
    → (ms ≢ []) × All (Serves u p g) ms
get_service_isolated raw unmarshal service cs r u p g ms e o plain h found =
    (listed.1, subst (All (Serves u p g)) listed.0 serving)
  where
    loaded :
        (r' : FileRegistry) × (new_file_registry (some raw) unmarshal service false ≡ opened r')
        × (get_service r' u p g ≡ or_no_hosts p u (keep (wanted u p g) (gather nodes cs)))
    loaded = get_service-new_file_registry raw unmarshal service cs u p g e

    same : loaded.0 ≡ r
    same = cc (loaded.1)

    listed : (keep (wanted u p g) (gather nodes cs) ≡ ms) × (ms ≢ [])
    listed = or_no_hosts-metas u p _ ms (sym loaded.2 ∙ ap (λ q. get_service q u p g) same ∙ found)

    serving : All (Serves u p g) (keep (wanted u p g) (gather nodes cs))
    serving =
        All-keep _ _ (wanted u p g) (λ m w k. wanted-Serves u p g m h w k) _ (gather-plain cs plain)
