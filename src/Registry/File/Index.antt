-- ===== src/Registry/File/Index.antt =====
-- What the index of registry_file.go holds, and what GetService answers from it.
use go_moa.Base.{
  Text, ◌≡◌, refl, sym, List, [], ◌∷◌, ◌++◌, if◌then◌else◌, text_eq, text_eq_iff, Assoc, lookup,
  insert, lookup-insert, arith, append-nil, append_assoc, keep, keep-append, gather, map,
}
use go_moa.Registry.{ServiceMeta}
use go_moa.Registry.Uri.{build_service_uri}
use go_moa.Registry.File.{
  LocalService, FileRegistry, metas_at, with_protocol, meta_of, add_host, add_hosts, add_clusters,
  or_no_hosts, has_proto, collect, get_service,
}

-- The nodes that an entry of the file stands for, in the order of its host ports.
abbrev pub nodes : LocalService → List ServiceMeta
nodes s = map (meta_of (with_protocol s)) s.host_ports

abbrev pub key_of : ServiceMeta → Text
key_of m = build_service_uri m.service_uri m.group_id

abbrev pub under : Text → List ServiceMeta → List ServiceMeta
under key = keep (λ m. text_eq (key_of m) key)

metas_at-insert :
    (k j : Text) (ss : List ServiceMeta) (m : Assoc (List ServiceMeta))
    → metas_at j (insert k ss m) ≡ (if text_eq k j then ss else metas_at j m)
unfolding metas_at
metas_at-insert k j ss m = ground (arith, lookup-insert k j ss m)

pub metas_at-nil : (key : Text) → metas_at key [] ≡ []
unfolding metas_at lookup
metas_at-nil key = refl

with_protocol_idem : (s : LocalService) → with_protocol (with_protocol s) ≡ with_protocol s
unfolding with_protocol
with_protocol_idem s = ground arith

key_of-meta_of :
    (s : LocalService) (hp : Text)
    → key_of (meta_of (with_protocol s) hp) ≡ build_service_uri s.service_uri s.group_id
unfolding with_protocol
key_of-meta_of s hp = ground arith

-- One more node under its key.
under-cons :
    (key : Text) (x : ServiceMeta) (m : Assoc (List ServiceMeta)) (xs : List ServiceMeta)
    → metas_at key (insert (key_of x) (metas_at (key_of x) m ++ x ∷ []) m) ++ under key xs
      ≡ metas_at key m ++ under key (x ∷ xs)
under-cons key x m xs = rw metas_at-insert (
    ground
      (arith, text_eq_iff (key_of x) key, append_assoc (metas_at key m) (x ∷ []) (under key xs)))

add_hosts_index :
    (s : LocalService) (hps : List Text) (m : Assoc (List ServiceMeta)) (key : Text)
    → metas_at key (add_hosts s hps m)
      ≡ metas_at key m ++ under key (map (meta_of (with_protocol s)) hps)
unfolding add_hosts add_host
add_hosts_index s [] m key = sym (append-nil _)
add_hosts_index s (hp ∷ hps) m key =
    rw (← key_of-meta_of s hp, add_hosts_index (with_protocol s) hps _ key, with_protocol_idem s)
      (under-cons key (meta_of (with_protocol s) hp) m _)

pub add_clusters_index :
    (cs : List LocalService) (m : Assoc (List ServiceMeta)) (key : Text)
    → metas_at key (add_clusters cs m) ≡ metas_at key m ++ under key (gather nodes cs)
unfolding add_clusters
add_clusters_index [] m key = sym (append-nil _)
add_clusters_index (s ∷ cs) m key = rw (
  add_clusters_index cs _ key,
  add_hosts_index s s.host_ports m key,
  append_assoc,
  keep-append _ (nodes s),
)

collect-keep :
    (p : Text) (hs out : List ServiceMeta) → collect p hs out ≡ out ++ keep (has_proto p) hs
unfolding collect
collect-keep p [] out = sym (append-nil out)
collect-keep p (h ∷ hs) out = ground (
  arith,
  collect-keep p hs,
  append_assoc out (h ∷ []) (keep (has_proto p) hs),
  collect-keep p hs (out ++ h ∷ []),
  collect-keep p hs out,
)

pub get_service_lem :
    (r : FileRegistry) (u p g : Text)
    → get_service r u p g
      ≡ or_no_hosts p u (keep (has_proto p) (metas_at (build_service_uri u g) r.uri2_services))
unfolding get_service metas_at
get_service_lem r u p g = grind (arith, collect-keep)
