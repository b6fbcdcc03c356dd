-- ===== src/Proxy.antt =====
-- proxy.go: services by reflection, and the handler of calls. A Go value is an element of `V`; the
-- types of the users' services are what reflect shows of them.
pub mod Build
pub mod Invoke
pub mod Trace
pub mod Listing
pub mod Concurrent
use go_moa.Base.{ℕ, Bool, Text, Option, List, Assoc}
use go_moa.Context.{Props}
use go_moa.Stat.{Meters, MoaStat}

-- json.Unmarshal into a value of a given type.
pub data Decoded (V : Type 0) : Type 0 where
  decoded : V → Decoded V
  failed : Text → Decoded V

-- reflect.Type of a parameter.
pub record ParamType (V : Type 0) : Type 0 where
  pub implements_context : Bool
  pub unmarshal : Text → Decoded V

-- reflect.Type of a result.
pub record OutType : Type 0 where
  pub type_name : Text
  pub implements_error : Bool

-- A call of a method by reflection. No result at all is the nil slice.
pub data Called (V : Type 0) : Type 0 where
  returned : List V → Called V
  panicked : Text → Called V

-- reflect's IsNil, which panics on a value of a kind that has no nil.
pub data NilTest : Type 0 where
  is_nil : NilTest
  not_nil : NilTest
  nil_panic : Text → NilTest

-- What reflect, fmt and json do with values: of a context, IsNil, the text of %v, and json.Marshal of a
-- result and of a raw argument.
pub record Reflect (V : Type 0) : Type 0 where
  pub of_context : Props → V
  pub test_nil : V → NilTest
  pub show : V → Text
  pub marshal : Option V → Option Text
  pub marshal_raw : Text → Option Text

pub record MethodMeta (V : Type 0) : Type 0 where
  pub name : Text
  pub method : List V → Called V
  pub return_type : List OutType
  pub param_types : List (ParamType V)

-- A method of the interface type.
pub record MethodDecl (V : Type 0) : Type 0 where
  pub name : Text
  pub ins : List (ParamType V)
  pub outs : List OutType

-- key: remoteip:port, values: the flow of each method.
abbrev pub Invokes : Meters → Type 0
Invokes M = Assoc (Assoc M.Flow)

-- What reflect finds of the interface and the instance of a service: Elem panics where the interface
-- is nil, and where it is no pointer (nor another type with elements); Implements panics where the
-- instance is nil, and where the element is no interface; else it says whether the instance
-- implements it.
pub data Conformance : Type 0 where
  nil_interface no_elements nil_instance not_interface not_implementing implementing : Conformance

-- Service; the interface type and the instance are given by their methods. `invokes_per_client` is
-- nil until NewInvocationHandler makes the map.
pub record Service (M : Meters) (V : Type 0) : Type 0 where
  pub service_uri : Text
  pub group_id : Text
  pub is_pre : Bool
  pub interface_methods : List (MethodDecl V)
  pub conformance : Conformance
  pub method_by_name : Text → List V → Called V
  pub methods : Assoc (MethodMeta V)
  pub invokes_per_client : Option (Invokes M)

pub record InvocationHandler (M : Meters) (V : Type 0) : Type 0 where
  pub instances : Assoc (Service M V)
  pub moa_stat : MoaStat M
