-- ===== src/Telemetry/Writes.antt =====
-- What a write of the trace file leaves of the sink.
use webox.Prelude.{
  ◌≡◌, refl, ◌+◌, ◌%◌, ◌^◌, Bool, List, [], ◌∷◌, ◌++◌, ◌⊎◌, inl, inr, some, if◌then◌else◌, All,
  All-append, Bool-cases, Option-cases,
}
use webox.Prelude.Text.{Text}
use webox.Telemetry.Sink.{Outside, FileSink, bump_dropped, write_text, write_event}

module _ {Event W : Type 0} (env : Outside Event W) where
  -- A text that log.Redact gave, or the end of a line.
  abbrev pub Clean : Text → Type 0
  Clean t = (t ≡ 10 ∷ []) ⊎ ((raw : Text) × (t ≡ env.redact raw))

  -- What a write leaves of a sink: more output, and a count if it failed.
  abbrev pub Wrote : Bool → FileSink Event → FileSink Event → Type 0
  Wrote ok s s' =
      (out : List Text) × (s'
        ≡ record s { output = out; dropped = if ok then s.dropped else (s.dropped + 1) % 2 ^ 64 })
      × (All Clean s.output → All Clean out)

  write_line-Wrote :
      (raw : Text) (e : Event) (s : FileSink Event) (w : W)
      → (env.marshal e w).0 ≡ some raw
      → Wrote (write_event env e s w).0 s (write_event env e s w).1
  unfolding write_event write_text bump_dropped
  write_line-Wrote raw e s w q =
      let line = env.write (env.redact raw) (env.marshal e w).1 in
      let add : (t : Text) (out : List Text) → Clean t → All Clean out → All Clean (out ++ t ∷ []) =
        λ t out c h. All-append Clean out (t ∷ []) h (c, tt) in
      let clean = add (env.redact raw) s.output (inr (raw, refl)) in
      let line_out = s.output ++ env.redact raw ∷ [] in
      elim (Bool-cases line.0) [
        | inl r ↦ elim (Bool-cases (env.write (10 ∷ []) line.1).0) [
          | inl f ↦ (
            line_out ++ (10 ∷ []) ∷ [],
            rw (write_event, write_text, q, r, f) refl,
            λ h. add (10 ∷ []) line_out (inl refl) (clean h),
          )
          | inr f ↦ (line_out, rw (write_event, write_text, q, r, f) refl, clean)
        ]
        | inr r ↦ (s.output, rw (write_event, write_text, q, r) refl, λ h. h)
      ]

  pub write_event-Wrote :
      (e : Event) (s : FileSink Event) (w : W)
      → Wrote (write_event env e s w).0 s (write_event env e s w).1
  unfolding write_event bump_dropped
  write_event-Wrote e s w = elim (Option-cases (env.marshal e w).0) [
    | inl q ↦ (s.output, rw (write_event, q) refl, λ h. h)
    | inr (raw, q) ↦ write_line-Wrote raw e s w q
  ]
