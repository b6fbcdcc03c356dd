-- ===== src/Context.antt =====
-- The properties that moa_codec.go keeps in a context. A context is what it holds under "moa.props";
-- maps are shared by reference, so they stand in a store.
pub mod Laws
use go_moa.Base.{
  ℕ, zero, suc, Text, Bool, ◌≡◌, Option, none, some, List, [], ◌∷◌, ◌++◌, length, Assoc, lookup,
  insert, delete, is_empty,
}

-- The maps that have been made; a reference is a position.
abbrev pub Store : Type 0
Store = List (Assoc Text)

-- The value under KEY_MOA_PROPERTIES: none, one of another type, a nil map, or a map.
pub data Props : Type 0 where
  absent foreign nil_map : Props
  at_ref : ℕ → Props

unfoldable pub map_at : Store → ℕ → Assoc Text
map_at [] r = []
map_at (m ∷ ms) zero = m
map_at (m ∷ ms) (suc r) = map_at ms r

unfoldable pub set_map : Store → ℕ → Assoc Text → Store
set_map [] r v = []
set_map (m ∷ ms) zero v = v ∷ ms
set_map (m ∷ ms) (suc r) v = m ∷ set_map ms r v

-- A write to a nil map is a panic.
pub data Wrote : Type 0 where
  wrote : Store → Props → Wrote
  nil_map_panic : Wrote

unfoldable pub attach_moa_property : Store → Props → Text → Text → Wrote
attach_moa_property h (at_ref r) key val =
    wrote (set_map h r (insert key val (map_at h r))) (at_ref r)
attach_moa_property h nil_map key val = nil_map_panic
attach_moa_property h absent key val = wrote (h ++ ((key, val) ∷ []) ∷ []) (at_ref (length h))
attach_moa_property h foreign key val = wrote (h ++ ((key, val) ∷ []) ∷ []) (at_ref (length h))

unfoldable pub detach_moa_property : Store → Props → Text → Store
detach_moa_property h (at_ref r) key = set_map h r (delete key (map_at h r))
detach_moa_property h _ key = h

-- The pair of the value and whether it exists.
unfoldable pub get_moa_property : Store → Props → Text → Option Text
get_moa_property h (at_ref r) key = lookup key (map_at h r)
get_moa_property h _ key = none

-- The global tracer of opentracing: what it reads from a carrier, and the entries that it sets there.
pub record Tracer : Type 1 where
  pub SpanContext : Type 0
  pub extract : Assoc Text → Option SpanContext
  pub inject_fields : SpanContext → List (Text × Text)
  pub start_span : Text → SpanContext → SpanContext

unfoldable pub get_span_ctx : (t : Tracer) → Store → Props → Option t.SpanContext
get_span_ctx t h (at_ref r) = t.extract (map_at h r)
get_span_ctx t h nil_map = t.extract []
get_span_ctx t h _ = none

set_all : List (Text × Text) → Assoc Text → Assoc Text
set_all [] m = m
set_all ((k, v) ∷ fields) m = set_all fields (insert k v m)

inject_nil : Store → List (Text × Text) → Wrote
inject_nil h [] = wrote h nil_map
inject_nil h (_ ∷ _) = nil_map_panic

unfoldable pub with_span_ctx : (t : Tracer) → Store → Props → t.SpanContext → Wrote
unfolding set_all inject_nil
with_span_ctx t h (at_ref r) c =
    wrote (set_map h r (set_all (t.inject_fields c) (map_at h r))) (at_ref r)
with_span_ctx t h nil_map c = inject_nil h (t.inject_fields c)
with_span_ctx t h absent c = wrote (h ++ set_all (t.inject_fields c) [] ∷ []) (at_ref (length h))
with_span_ctx t h foreign c = wrote (h ++ set_all (t.inject_fields c) [] ∷ []) (at_ref (length h))
