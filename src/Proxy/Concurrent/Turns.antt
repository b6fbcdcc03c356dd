-- ===== src/Proxy/Concurrent/Turns.antt =====
-- One step of a goroutine of the counting in proxy.go.
use go_moa.Base.{
  ℕ, ◌+◌, Bool, true, false, ◌≡◌, refl, sym, ap, ◌∙◌, Text, Option, none, some, Assoc, lookup,
  insert, lookup-insert, lookup-insert_self, text_eq, text_eq_iff, ◌&&◌, arith,
}
use go_moa.Base.Family.{update_self}
use go_moa.Stat.{Meters}
use go_moa.Proxy.Invoke.Counting.{CountsAll, one_if}
use go_moa.Proxy.Concurrent.{
  Heap, Call, Goroutine, Pc, arrived, client_missed, has_map, flow_missed, has_flow, counted,
  load_or_store_client, load_or_store_flow, turn,
}
use go_moa.Proxy.Concurrent.Owned.{shown, Owners, IsOwned, Holds, HoldsMap, HoldsFlow, Next, stay}
use go_moa.Proxy.Concurrent.NewClient.{client-Next, client_shown, owners_client}
use go_moa.Proxy.Concurrent.NewFlow.{flow-Next, flow_shown, owners_flow}
use go_moa.Proxy.Concurrent.OneMore.{one-Next, one_shown}

abbrev pub is_counted : Pc → Bool
is_counted counted = true
is_counted _ = false

-- One for a goroutine that has counted a call of this client and this method.
abbrev pub counted_as : Text → Text → Goroutine → ℕ
counted_as source name g =
    one_if (is_counted g.pc && (text_eq g.call.source source && text_eq g.call.name name))

module _ (M : Meters) (c : CountsAll M) (kept : Text) where
  -- What a step of a goroutine does to the heap and to what it holds.
  pub record Turned (o : Owners M kept) (h : Heap M) (call : Call) (p : Pc) (out : Heap M × Pc)
      : Type 0 where
    pub behind : Owners M kept
    pub next : Next M kept o behind h out.0
    pub holds : Holds M kept behind out.0 call out.1
    pub shows :
        (name : Text)
        → shown M kept out.0 kept name + counted_as kept name (record { call = call; pc = p })
          ≡ shown M kept h kept name + counted_as kept name (record { call = call; pc = out.1 })

  module _ (o : Owners M kept) (h : Heap M) (w : IsOwned M kept o h) (call : Call) where
    -- The client's map that is there.
    holds_stored : (m : ℕ) → lookup call.source h.clients ≡ some m → HoldsMap M kept o h call m
    holds_stored m e =
        let (l, p) = w.clients_own call.source m e in
        (l, p, λ q. ap (λ s. lookup s h.clients) (sym q) ∙ e)

    holds_stored_flow :
        (m f : ℕ)
        → HoldsMap M kept o h call m
        → lookup call.name (h.maps m) ≡ some f
        → HoldsFlow M kept o h call f
    holds_stored_flow m f (_, p, s) e =
        let (l, q) = w.maps_own m call.name f e in
        (l, q ∙ ap (λ x. (x, call.name)) p, λ k. rw (s k) e)

    load-Turned :
        (found : Option ℕ)
        → lookup call.source h.clients ≡ found
        → Turned o h call arrived (turn M call h arrived)
    unfolding turn
    load-Turned none e = record {
      behind = o;
      next = stay M kept o h w;
      holds = rw e tt;
      shows = λ name. rw e refl;
    }
    load-Turned (some m) e = record {
      behind = o;
      next = stay M kept o h w;
      holds = rw e (holds_stored m e);
      shows = λ name. rw e refl;
    }

    store-Turned :
        (found : Option ℕ)
        → lookup call.source h.clients ≡ found
        → Turned o h call client_missed (load_or_store_client M call.source h found)
    unfolding load_or_store_client
    store-Turned (some m) e = record {
      behind = o;
      next = stay M kept o h w;
      holds = holds_stored m e;
      shows = λ name. refl;
    }
    store-Turned none e = record {
      behind = owners_client M kept o h w call.source e;
      next = client-Next M kept o h w call.source e;
      holds = (
        omega arith,
        update_self h.fresh call.source o.of_map,
        λ q.
            lookup-insert call.source kept h.fresh h.clients
            ∙ rw ((text_eq_iff call.source kept).1 q) refl,
      );
      shows = λ name. omega (arith, client_shown M kept o h w call.source e name);
    }

    module _ (m : ℕ) (held : HoldsMap M kept o h call m) where
      load_flow-Turned :
          (found : Option ℕ)
          → lookup call.name (h.maps m) ≡ found
          → Turned o h call (has_map m) (turn M call h (has_map m))
      unfolding turn
      load_flow-Turned none e = record {
        behind = o;
        next = stay M kept o h w;
        holds = rw e held;
        shows = λ name. rw e refl;
      }
      load_flow-Turned (some f) e = record {
        behind = o;
        next = stay M kept o h w;
        holds = rw e (holds_stored_flow m f held e);
        shows = λ name. rw e refl;
      }

      store_flow-Turned :
          (found : Option ℕ)
          → lookup call.name (h.maps m) ≡ found
          → Turned o h call (flow_missed m) (load_or_store_flow M call.name m h found)
      unfolding load_or_store_flow
      store_flow-Turned (some f) e = record {
        behind = o;
        next = stay M kept o h w;
        holds = holds_stored_flow m f held e;
        shows = λ name. refl;
      }
      store_flow-Turned none e = record {
        behind = owners_flow M kept o h w call.name m held.0 e;
        next = flow-Next M kept o h w call.name m held.0 e;
        holds = (
          omega arith,
          update_self h.fresh (o.of_map m, call.name) o.of_flow ∙ ap (λ x. (x, call.name)) held.1,
          λ q. rw (held.2 q) (
              ap (λ (t : Assoc ℕ). lookup call.name t)
                (update_self m (insert call.name h.fresh (h.maps m)) h.maps)
              ∙ lookup-insert_self call.name h.fresh (h.maps m)),
        );
        shows = λ name. omega (arith, flow_shown M kept o h w call.name m held.0 e c name);
      }

    incr-Turned :
        (f : ℕ)
        → HoldsFlow M kept o h call f
        → Turned o h call (has_flow f) (turn M call h (has_flow f))
    unfolding turn
    incr-Turned f (l, own, s) = record {
      behind = o;
      next = one-Next M kept o h w call.source call.name f own s;
      holds = tt;
      shows = λ name. omega (arith, one_shown M kept o h w call.source call.name f own s c name);
    }

    pub turn-Turned : (p : Pc) → Holds M kept o h call p → Turned o h call p (turn M call h p)
    unfolding turn
    turn-Turned arrived k = load-Turned (lookup call.source h.clients) refl
    turn-Turned client_missed k = store-Turned (lookup call.source h.clients) refl
    turn-Turned (has_map m) k = load_flow-Turned m k (lookup call.name (h.maps m)) refl
    turn-Turned (flow_missed m) k = store_flow-Turned m k (lookup call.name (h.maps m)) refl
    turn-Turned (has_flow f) k = incr-Turned f k
    turn-Turned counted k = record {
      behind = o;
      next = stay M kept o h w;
      holds = tt;
      shows = λ name. refl;
    }
