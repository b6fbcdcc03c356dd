-- ===== src/Proxy/Concurrent.antt =====
-- The counting of Invoke in proxy.go by many goroutines at once. Each call of a sync.Map and each
-- increment of a flow is one step; between the steps of one call any others may come, and the timer of
-- application.go may remove a client.
pub mod Owned
pub mod NewClient
pub mod NewFlow
pub mod OneMore
pub mod Turns
pub mod Exact
pub mod Schedule
pub mod Sequential
use go_moa.Base.{
  ℕ, ◌+◌, ◌<◌, Bool, true, false, ◌≡◌, Text, Option, none, some, List, [], ◌∷◌, Assoc, lookup,
  insert, delete, text_eq, ◌&&◌, if◌then◌else◌,
}
use go_moa.Base.Family.{update}
use go_moa.Stat.{Meters}

-- Where a goroutine stands in the counting, with what it holds there.
pub data Pc : Type 0 where
  arrived : Pc  -- before Load of the client
  client_missed : Pc  -- before LoadOrStore of the client
  has_map : ℕ → Pc  -- before Load of the method
  flow_missed : ℕ → Pc  -- before LoadOrStore of the method
  has_flow : ℕ → Pc  -- before Incr
  counted : Pc

-- The client's address and the name of the method that a request reaches.
pub record Call : Type 0 where
  pub source : Text
  pub name : Text

pub record Goroutine : Type 0 where
  pub call : Call
  pub pc : Pc

module _ (M : Meters) where
  -- InvokesPerClient of a service, the maps that it points to and the flows that they point to, by
  -- their addresses; the addresses from `fresh` on are not in use.
  pub record Heap : Type 0 where
    pub clients : Assoc ℕ
    pub maps : ℕ → Assoc ℕ
    pub flows : ℕ → M.Flow
    pub fresh : ℕ

  abbrev pub no_clients : Heap
  no_clients = record { clients = []; maps = λ m. []; flows = λ f. M.new_flow; fresh = 0 }

  -- LoadOrStore of the client; the map that is not stored is left to the collector.
  unfoldable pub load_or_store_client : Text → Heap → Option ℕ → Heap × Pc
  load_or_store_client source h (some m) = (h, has_map m)
  load_or_store_client source h none = (
    record h {
      clients = insert source h.fresh h.clients;
      maps = update h.fresh [] h.maps;
      fresh = h.fresh + 1;
    },
    has_map h.fresh,
  )

  unfoldable pub load_or_store_flow : Text → ℕ → Heap → Option ℕ → Heap × Pc
  load_or_store_flow name m h (some f) = (h, has_flow f)
  load_or_store_flow name m h none = (
    record h {
      maps = update m (insert name h.fresh (h.maps m)) h.maps;
      flows = update h.fresh M.new_flow h.flows;
      fresh = h.fresh + 1;
    },
    has_flow h.fresh,
  )

  abbrev pub loaded_client : Option ℕ → Pc
  loaded_client none = client_missed
  loaded_client (some m) = has_map m

  abbrev pub loaded_flow : ℕ → Option ℕ → Pc
  loaded_flow m none = flow_missed m
  loaded_flow m (some f) = has_flow f

  -- One step of a goroutine.
  unfoldable pub turn : Call → Heap → Pc → Heap × Pc
  unfolding load_or_store_client load_or_store_flow
  turn c h arrived = (h, loaded_client (lookup c.source h.clients))
  turn c h client_missed = load_or_store_client c.source h (lookup c.source h.clients)
  turn c h (has_map m) = (h, loaded_flow m (lookup c.name (h.maps m)))
  turn c h (flow_missed m) = load_or_store_flow c.name m h (lookup c.name (h.maps m))
  turn c h (has_flow f) = (record h { flows = update f (M.incr 1 (h.flows f)) h.flows }, counted)
  turn c h counted = (h, counted)

  pub record System : Type 0 where
    pub heap : Heap
    pub goroutines : ℕ → Goroutine

  abbrev pub moved : ℕ → Heap × Pc → System → System
  moved i (h, p) s = record {
    heap = h;
    goroutines = update i (record { call = (s.goroutines i).call; pc = p }) s.goroutines;
  }

  unfoldable pub runs : ℕ → System → System
  unfolding turn
  runs i s = moved i (turn (s.goroutines i).call s.heap (s.goroutines i).pc) s

  -- The timer's Delete of a client.
  unfoldable pub forgets : Text → System → System
  forgets client s = record s { heap = record s.heap { clients = delete client s.heap.clients } }

  -- A step of one of the first `n` goroutines, or of the timer, which leaves the clients that stay.
  pub data Step (n : ℕ) (Stays : Text → Type 0) (s : System) : System → Type 0 where
    run : (i : ℕ) → i < n → Step n Stays s (runs i s)
    forget : (client : Text) → ¬ Stays client → Step n Stays s (forgets client s)

  -- Before any call is counted.
  abbrev pub at_start : (ℕ → Call) → System
  at_start calls = record {
    heap = no_clients;
    goroutines = λ i. record { call = calls i; pc = arrived };
  }

  pub data Reach (n : ℕ) (Stays : Text → Type 0) (calls : ℕ → Call) : System → Type 0 where
    start : Reach n Stays calls (at_start calls)
    later : {s t : System} → Reach n Stays calls s → Step n Stays s t → Reach n Stays calls t
