-- ===== src/Proxy/Build.antt =====
-- NewInvocationHandler of proxy.go.
pub mod Checked
pub mod SetUp
pub mod Held
use go_moa.Base.{
  ℕ, Bool, true, false, not, ◌≡◌, Text, Option, none, some, List, [], ◌∷◌, ◌&&◌, length, leb,
  if◌then◌else◌, Assoc, insert, to_lower,
}
use go_moa.Stat.{Meters, MoaStat}
use go_moa.Proxy.{
  Conformance, nil_interface, no_elements, nil_instance, not_interface, not_implementing,
  implementing, OutType, MethodDecl, MethodMeta, Service, InvocationHandler,
}

-- The panics, with the texts that their messages name, and those of reflect.
pub data Refusal : Type 0 where
  nil_pointer : Refusal
  invalid_elem : Refusal
  non_interface : Refusal
  not_implements : Text → Refusal
  last_return_not_error : Text → Text → Refusal
  bad_return_count : Text → Text → Refusal

pub data Built {ℓ} (A : Type ℓ) : Type ℓ where
  built : A → Built A
  refused : Refusal → Built A

infixl 5 ◌>>=◌
abbrev pub ◌>>=◌ {ℓ κ} : {A : Type ℓ} {B : Type κ} → Built A → (A → Built B) → Built B
built a >>= f = f a
refused r >>= f = refused r

-- t.Out(t.NumOut() - 1).Implements(errorType)
abbrev pub last_is_error : List OutType → Bool
last_is_error [] = false
last_is_error (t ∷ []) = t.implements_error
last_is_error (_ ∷ t ∷ ts) = last_is_error (t ∷ ts)

-- The panics of reflect, and the one where the instance does not implement the interface.
check_conformance : Text → Conformance → Built (Unit {0})
check_conformance service_uri nil_interface = refused nil_pointer
check_conformance service_uri no_elements = refused invalid_elem
check_conformance service_uri nil_instance = refused nil_pointer
check_conformance service_uri not_interface = refused non_interface
check_conformance service_uri not_implementing = refused (not_implements service_uri)
check_conformance service_uri implementing = built tt

module _ {M : Meters} {V : Type 0} where
  abbrev pub method_meta : MethodDecl V → Service M V → MethodMeta V
  method_meta m s = record {
    name = m.name;
    method = s.method_by_name m.name;
    return_type = m.outs;
    param_types = m.ins;
  }

  -- One round over the interface's methods: the checks, and the entry under the lower-case name.
  -- Every round makes a new map of the clients' calls.
  unfoldable pub add_method : MethodDecl V → Service M V → Built (Service M V)
  add_method m s =
      if leb 1 (length m.outs) && leb (length m.outs) 2
      then (if not (last_is_error m.outs)
          then refused (last_return_not_error s.service_uri m.name)
          else built (record s {
            methods = insert (to_lower m.name) (method_meta m s) s.methods;
            invokes_per_client = some [];
          }))
      else refused (bad_return_count s.service_uri m.name)

  unfoldable pub add_methods : List (MethodDecl V) → Service M V → Built (Service M V)
  add_methods [] s = built s
  add_methods (m ∷ ms) s = add_method m s >>= add_methods ms

  unfoldable pub check_implements : Service M V → Built (Unit {0})
  unfolding check_conformance
  check_implements s = check_conformance s.service_uri s.conformance

  unfoldable pub init_service : Service M V → Built (Service M V)
  init_service s =
      check_implements s >>= λ _. add_methods s.interface_methods (record s { methods = [] })

  unfoldable pub init_services :
      List (Service M V) → Assoc (Service M V) → Built (Assoc (Service M V))
  init_services [] instances = built instances
  init_services (s ∷ services) instances =
      init_service s >>= λ s'. init_services services (insert s'.service_uri s' instances)

  unfoldable pub new_invocation_handler :
      List (Service M V) → MoaStat M → Built (InvocationHandler M V)
  unfolding init_services
  new_invocation_handler services moa_stat = init_services services [] >>= λ instances.
      built (record { instances = instances; moa_stat = moa_stat })
