-- ===== src/Proxy/Listing.antt =====
-- ListInvokes of proxy.go, and its types in stat.go: the calls of a service's methods by clients.
use go_moa.Base.{
  ℕ, ◌≡◌, ◌≢◌, refl, Text, Option, none, some, List, [], ◌∷◌, Assoc, lookup, if◌then◌else◌, text_eq,
  arith, Option-cases, Bool-cases, inl, inr,
}
use go_moa.Stat.{Meters}
use go_moa.Proxy.{Invokes, Service, InvocationHandler}
use go_moa.Proxy.Invoke.Counting.{calls, calls_for, calls_in, calls_of}

pub record Method : Type 0 where
  pub name : Text
  pub count : ℕ

pub record InvokePerClient : Type 0 where
  pub client : Text
  pub service_name : Text
  pub methods : List Method

module _ (M : Meters) where
  unfoldable pub list_methods : Assoc M.Flow → List Method
  list_methods [] = []
  list_methods ((method_name, f) ∷ flow) =
      record { name = method_name; count = M.count f } ∷ list_methods flow

  unfoldable pub list_clients : Text → Invokes M → List InvokePerClient
  unfolding list_methods
  list_clients service_uri [] = []
  list_clients service_uri ((client, flow) ∷ invokes) =
      record { client = client; service_name = service_uri; methods = list_methods flow }
      ∷ list_clients service_uri invokes

module _ {M : Meters} {V : Type 0} where
  -- `none` is the panic for a nil map of calls, of a service that was not set up.
  unfoldable pub list_invokes : InvocationHandler M V → Text → Option (List InvokePerClient)
  unfolding list_clients
  list_invokes h servicename = elim (lookup servicename h.instances) [
    | none ↦ some []
    | some service ↦ elim service.invokes_per_client [
      | none ↦ none
      | some invokes ↦ some (list_clients M service.service_uri invokes)
    ]
  ]

-- What a list says of a client and a method.
abbrev pub count_in : List Method → Text → ℕ
count_in [] name = 0
count_in (m ∷ ms) name = if text_eq m.name name then m.count else count_in ms name

abbrev pub listed : List InvokePerClient → Text → Text → ℕ
listed [] client name = 0
listed (c ∷ cs) client name =
    if text_eq c.client client then count_in c.methods name else listed cs client name

module _ (M : Meters) where
  count_in-list_methods :
      (flow : Assoc M.Flow) (name : Text)
      → count_in (list_methods M flow) name ≡ calls_of M (some flow) name
  unfolding list_methods calls_of lookup
  count_in-list_methods [] name = refl
  count_in-list_methods ((k, f) ∷ flow) name = ground (arith, count_in-list_methods flow name)

  listed-list_clients :
      (uri : Text) (invokes : Invokes M) (client name : Text)
      → listed (list_clients M uri invokes) client name ≡ calls_in M invokes client name
  unfolding list_clients calls_in lookup
  listed-list_clients uri [] client name = refl
  listed-list_clients uri ((k, flow) ∷ invokes) client name = elim (Bool-cases (text_eq k client)) [
    | inl t ↦ rw (t, calls_in, lookup) (count_in-list_methods flow name)
    | inr f ↦ rw (f, calls_in, lookup) (listed-list_clients uri invokes client name)
  ]

module _ {M : Meters} {V : Type 0} (h : InvocationHandler M V) (uri : Text) where
  -- Where the service is set up, ListInvokes does not panic, and for every client and method its list
  -- says the number of calls that were counted.
  pub list_invokes-calls :
      ((s : Service M V) → lookup uri h.instances ≡ some s → s.invokes_per_client ≢ none)
      → (l : List InvokePerClient) × (list_invokes h uri ≡ some l)
        × ((client name : Text) → listed l client name ≡ calls M h.instances uri client name)
  unfolding list_invokes calls calls_for
  list_invokes-calls set_up = elim (Option-cases (lookup uri h.instances)) [
    | inl e ↦ ([], rw (e, list_invokes) refl, λ client name. rw (e, calls) refl)
    | inr (s, e) ↦ elim (Option-cases s.invokes_per_client) [
      | inl k ↦ absurd (set_up s e k)
      | inr (i, k) ↦ (
        list_clients M s.service_uri i,
        rw (e, k, list_invokes) refl,
        λ client name. rw (e, k, calls) (listed-list_clients M s.service_uri i client name),
      )
    ]
  ]
