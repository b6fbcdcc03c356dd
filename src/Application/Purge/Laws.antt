-- ===== src/Application/Purge/Laws.antt =====
-- What the timer of application.go leaves of the counts of calls.
use go_moa.Base.{
  ℕ, Bool, true, false, not, ◌≡◌, ◌≢◌, refl, sym, ap, ◌∙◌, Text, Option, none, some, List, [], ◌∷◌,
  inl, inr, ◌↔◌, if◌then◌else◌, length, keep, any, All, Assoc, lookup, delete, lookup-delete,
  sort_strings, text_eq, text_eq_iff, arith, Bool-cases, Option-cases,
}
use go_moa.Base.Search.{at, search_strings, search_strings-any}
use go_moa.Base.Sorting.{sort_strings-IsSorted, any-sort_strings}
use go_moa.Proxy.{Invokes, Service}
use go_moa.Proxy.Invoke.Counting.{calls_of, calls_in, calls_for, calls}
use go_moa.Stat.{Meters}
use go_moa.Application.Purge.{
  is_gone, clients_of, remove_clients, purge_invokes, with_purged, purge_service, purge_rest,
  purge_each, purge,
}

at_end : (p : Text → Bool) (ss : List Text) (i : ℕ) → i ≡ length ss → at p ss i ≡ false
at_end p [] i e = refl
at_end p (s ∷ ss) i e = rw e (at_end p ss (length ss) refl)

-- In the sorted slice a client is gone exactly when the server does not list it.
is_gone-sorted :
    (cs : List Text) (ip : Text) → is_gone (sort_strings cs) ip ≡ not (any (text_eq ip) cs)
unfolding is_gone
is_gone-sorted cs ip = ground (
  arith,
  search_strings-any (sort_strings cs) ip (sort_strings-IsSorted cs),
  any-sort_strings (text_eq ip) cs,
  at_end (text_eq ip) (sort_strings cs) (search_strings (sort_strings cs) ip),
)

any_dropped :
    (p : Text → Bool) (source : Text) (ips : List Text)
    → p source ≡ false
    → any (text_eq source) (keep p ips) ≡ false
any_dropped p source [] h = refl
any_dropped p source (ip ∷ ips) h = elim (Bool-cases (text_eq source ip)) [
  | inl e ↦
      let same : source ≡ ip = (text_eq_iff source ip).0 e in
      rw (sym (ap p same) ∙ h) (any_dropped p source ips h)
  | inr e ↦ ground (arith, any_dropped p source ips h)
]

module _ {ℓ} {F : Type ℓ} where
  any_kept :
      (p : Text → Bool) (source : Text) (invokes : Assoc F) (found : F)
      → p source ≡ true
      → lookup source invokes ≡ some found
      → any (text_eq source) (keep p (clients_of invokes)) ≡ true
  unfolding lookup
  any_kept p source [] found h k = absurd (cc)
  any_kept p source ((ip, flow) ∷ invokes) found h k = elim (Bool-cases (text_eq source ip)) [
    | inl e ↦
        let same : source ≡ ip = (text_eq_iff source ip).0 e in rw (sym (ap p same) ∙ h, e) refl
    | inr e ↦
        ground
          (arith, any_kept p source invokes found, text_eq_iff ip source, text_eq_iff source ip)
  ]

  lookup-remove :
      (source : Text) (gone : List Text) (invokes : Assoc F)
      → lookup source (remove_clients gone invokes)
        ≡ (if any (text_eq source) gone then none else lookup source invokes)
  unfolding remove_clients
  lookup-remove source [] invokes = refl
  lookup-remove source (ip ∷ gone) invokes = ground (
    arith,
    lookup-remove source gone (delete ip invokes),
    lookup-delete ip source invokes,
    text_eq_iff ip source,
    text_eq_iff source ip,
  )

  -- The flows of a client that the server lists stay, and no others.
  lookup-purge_invokes :
      (source : Text) (cs : List Text) (invokes : Assoc F)
      → lookup source (purge_invokes (sort_strings cs) invokes)
        ≡ (if any (text_eq source) cs then lookup source invokes else none)
  unfolding purge_invokes
  lookup-purge_invokes source cs invokes =
      lookup-remove source (keep (is_gone (sort_strings cs)) (clients_of invokes)) invokes
      ∙ elim (Option-cases (lookup source invokes)) [
        | inl e ↦ ground arith
        | inr (flow, e) ↦ elim (Bool-cases (any (text_eq source) cs)) [
          | inl k ↦
              let stays : is_gone (sort_strings cs) source ≡ false =
                is_gone-sorted cs source ∙ ap not k in
              rw (any_dropped (is_gone (sort_strings cs)) source (clients_of invokes) stays, k) refl
          | inr k ↦
              let goes : is_gone (sort_strings cs) source ≡ true =
                is_gone-sorted cs source ∙ ap not k in
              rw (any_kept (is_gone (sort_strings cs)) source invokes flow goes e, k) refl
        ]
      ]

calls_nil :
    (M : Meters) (V : Type 0) (uri source name : Text) → calls M {V = V} [] uri source name ≡ 0
unfolding calls calls_for lookup
calls_nil M V uri source name = refl

calls_in-purge_invokes :
    (M : Meters) (cs : List Text) (i : Invokes M) (source name : Text)
    → calls_in M (purge_invokes (sort_strings cs) i) source name
      ≡ (if any (text_eq source) cs then calls_in M i source name else 0)
unfolding calls_in calls_of
calls_in-purge_invokes M cs i source name =
    rw (lookup-purge_invokes source cs i)
      (elim (Bool-cases (any (text_eq source) cs)) [ inl e ↦ rw e refl | inr e ↦ rw e refl ])

module _ {M : Meters} {V : Type 0} where
  with_purged-some :
      (cs : List Text) (s s' : Service M V) (invokes : Option (Invokes M))
      → with_purged cs s invokes ≡ some s'
      → (i : Invokes M) × (invokes ≡ some i)
        × (s' ≡ record s { invokes_per_client = some (purge_invokes cs i) })
  unfolding with_purged
  with_purged-some cs s s' none h = absurd (cc)
  with_purged-some cs s s' (some invokes) h = (invokes, refl, cc)

  purge_rest-some :
      (uri : Text) (s : Option (Service M V)) (rest : Option (Assoc (Service M V)))
      (out : Assoc (Service M V))
      → purge_rest uri s rest ≡ some out
      → (s' : Service M V) × (rest' : Assoc (Service M V)) × (s ≡ some s')
        × (rest ≡ some rest')
        × (out ≡ (uri, s') ∷ rest')
  unfolding purge_rest
  purge_rest-some uri none rest out h = absurd (cc)
  purge_rest-some uri (some s) none out h = absurd (cc)
  purge_rest-some uri (some s) (some rest) out h = (s, rest, refl, refl, cc)

  calls_for-some :
      (s : Service M V) (i : Invokes M) (source name : Text)
      → s.invokes_per_client ≡ some i
      → calls_for M (some s) source name ≡ calls_in M i source name
  unfolding calls_for
  calls_for-some s i source name e = rw (e, calls_for) refl

  -- What the counts of a service become: those of listed clients stay, the others are zero.
  calls_for-purge_service :
      (cs : List Text) (s s' : Service M V) (source name : Text)
      → purge_service (sort_strings cs) s ≡ some s'
      → calls_for M (some s') source name
        ≡ (if any (text_eq source) cs then calls_for M (some s) source name else 0)
  unfolding purge_service
  calls_for-purge_service cs s s' source name h =
      let (i, e, k) = with_purged-some (sort_strings cs) s s' s.invokes_per_client h in
      calls_for-some s' (purge_invokes (sort_strings cs) i) source name
        (ap (λ (t : Service M V). t.invokes_per_client) k)
      ∙ calls_in-purge_invokes M cs i source name
      ∙ ap (λ n. if any (text_eq source) cs then n else 0) (sym (calls_for-some s i source name e))

  purge_each-calls :
      (cs : List Text) (uri source name : Text) (instances out : Assoc (Service M V))
      → purge_each (sort_strings cs) instances ≡ some out
      → calls M out uri source name
        ≡ (if any (text_eq source) cs then calls M instances uri source name else 0)
  unfolding purge_each calls lookup
  purge_each-calls cs uri source name [] out h =
      let e : out ≡ [] = cc in rw (e, calls_nil M V uri source name) (ground arith)
  purge_each-calls cs uri source name ((u, s) ∷ instances) out h =
      let (s', rest, e, k, o) =
        purge_rest-some u (purge_service (sort_strings cs) s)
          (purge_each (sort_strings cs) instances) out h in
      ground (
        arith,
        o,
        calls_for-purge_service cs s s' source name e,
        purge_each-calls cs uri source name instances rest k,
      )

  -- Each service has its map of calls.
  abbrev pub HaveMaps : Assoc (Service M V) → Type 0
  HaveMaps = All (λ e. e.1.invokes_per_client ≢ none)

  purge_each_total :
      (cs : List Text) (instances : Assoc (Service M V))
      → HaveMaps instances
      → (out : Assoc (Service M V)) × (purge_each cs instances ≡ some out)
  unfolding purge_each purge_service with_purged purge_rest
  purge_each_total cs [] h = ([], refl)
  purge_each_total cs ((uri, s) ∷ instances) h =
      let (out, e) = purge_each_total cs instances h.1 in
      elim (Option-cases s.invokes_per_client) [
        | inl k ↦ absurd (h.0 k)
        | inr (i, k) ↦ (
          (uri, record s { invokes_per_client = some (purge_invokes cs i) }) ∷ out,
          ap (λ o. purge_rest uri o (purge_each cs instances)) (ap (with_purged cs s) k)
              ∙ ap
                  (purge_rest uri
                    (some (record s { invokes_per_client = some (purge_invokes cs i) })))
                  e,
        )
      ]

  purge_each_panics :
      (cs : List Text) (instances out : Assoc (Service M V))
      → purge_each cs instances ≡ some out
      → HaveMaps instances
  unfolding purge_each purge_service
  purge_each_panics cs [] out h = tt
  purge_each_panics cs ((uri, s) ∷ instances) out h =
      let (s', rest, e, k, o) =
        purge_rest-some uri (purge_service cs s) (purge_each cs instances) out h in
      let (i, e', l) = with_purged-some cs s s' s.invokes_per_client e in
      ((λ n. cc (n, e')), purge_each_panics cs instances rest k)

  -- Where every service has its map of calls, a round of the timer does not panic. It keeps the
  -- counts of the clients that the server lists, and takes those of all others down to zero, for
  -- every service and method.
  pub purge-calls :
      (cs : List Text) (instances : Assoc (Service M V))
      → HaveMaps instances
      → (out : Assoc (Service M V)) × (purge cs instances ≡ some out)
        × ((uri source name : Text)
            → calls M out uri source name
              ≡ (if any (text_eq source) cs then calls M instances uri source name else 0))
  unfolding purge
  purge-calls cs instances h =
      let (out, e) = purge_each_total (sort_strings cs) instances h in
      (out, e, λ uri source name. purge_each-calls cs uri source name instances out e)

  -- A round of the timer panics exactly when a service has no map of calls.
  pub purge_panic :
      (cs : List Text) (instances : Assoc (Service M V))
      → (purge cs instances ≡ none) ↔ (¬ HaveMaps instances)
  unfolding purge
  purge_panic cs instances = (
    λ e h. let (out, k) = purge_each_total (sort_strings cs) instances h in cc (e, k),
    λ n. elim (Option-cases (purge_each (sort_strings cs) instances)) [
      | inl e ↦ e
      | inr (out, e) ↦ absurd (n (purge_each_panics (sort_strings cs) instances out e))
    ],
  )
