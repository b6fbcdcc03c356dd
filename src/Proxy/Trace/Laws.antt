-- ===== src/Proxy/Trace/Laws.antt =====
-- When the tracing before a call of Invoke panics.
use go_moa.Base.{ℕ, ◌≡◌, refl, sym, subst, Option, ◌⊎◌, inl, inr, arith}
use go_moa.Context.{
  Store, Props, absent, foreign, nil_map, at_ref, Tracer, get_span_ctx, with_span_ctx,
}
use go_moa.Protocol.{MoaRawReqPacket}
use go_moa.Proxy.{Reflect}
use go_moa.Proxy.Trace.{Span, Begun, begun, begin_panic, begin_trace, child_span}

abbrev pub Begins : Begun → Type 0
Begins b = (st : Store) × (c : Props) × (span : Option Span) × (b ≡ begun st c span)

Begun-cases : (b : Begun) → (b ≡ begin_panic) ⊎ Begins b
Begun-cases begin_panic = inl refl
Begun-cases (begun st c span) = inr (st, c, span, refl)

module _ {V : Type 0} (R : Reflect V) (T : Tracer) (store : Store) (req : MoaRawReqPacket) where
  begin_panic-nil_map : (ctx : Props) → begin_trace R T store ctx req ≡ begin_panic → ctx ≡ nil_map
  unfolding begin_trace with_span_ctx get_span_ctx
  begin_panic-nil_map absent e = cc
  begin_panic-nil_map foreign e = cc
  begin_panic-nil_map nil_map e = refl
  begin_panic-nil_map (at_ref r) e = ground arith

  -- The tracing goes through, or the context holds a nil map.
  pub begin_trace-cases :
      (ctx : Props)
      → ((ctx ≡ nil_map) × (begin_trace R T store ctx req ≡ begin_panic))
        ⊎ Begins (begin_trace R T store ctx req)
  begin_trace-cases ctx = elim (Begun-cases (begin_trace R T store ctx req)) [
    | inl e ↦ inl (begin_panic-nil_map ctx e, e)
    | inr b ↦ inr b
  ]

  keeps_ref :
      (r : ℕ) (st : Store) (c : Props) (span : Option Span)
      → begin_trace R T store (at_ref r) req ≡ begun st c span
      → at_ref r ≡ c
  unfolding begin_trace with_span_ctx child_span
  keeps_ref r st c span e = ground arith

  -- With a map in the context the tracing goes through and keeps that map.
  pub begin_trace-at_ref :
      (r : ℕ)
      → (st : Store) × (span : Option Span) × (begin_trace R T store (at_ref r) req
          ≡ begun st (at_ref r) span)
  begin_trace-at_ref r = elim (begin_trace-cases (at_ref r)) [
    | inl (n, _) ↦ absurd (ground (arith, n))
    | inr (st, c, span, e) ↦ (
      st,
      span,
      subst (λ x. begin_trace R T store (at_ref r) req ≡ begun st x span)
          (sym (keeps_ref r st c span e)) e,
    )
  ]
