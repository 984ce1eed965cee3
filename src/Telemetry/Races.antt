-- ===== src/Telemetry/Races.antt =====
-- A Record that comes in two halves, with Close between them.
use webox.Prelude.{
  ◌≡◌, refl, sym, subst, Bool, true, false, ◌≢◌, inl, inr, arith, Bool-cases, if◌then◌else◌, neg,
}
use webox.Telemetry.Sink.{
  FileSinkPolicy, Outside, FileSink, begin_record, send, record_event, close_closed, close_queue,
  Sent, panics,
}
use webox.Telemetry.Steps.{Tally, Reaches}
use webox.Telemetry.Accounts.{file_sink-Sound}

-- On a sink that is not closed, a Record whose context is live passes its first check; if Close
-- then closes both channels before the send, the send panics.
pub record-close-panics :
    {Event : Type 0} (s : FileSink Event) (e : Event)
    → s.closed ≡ false
    → (begin_record s ≡ true)
      × ((pick : Bool) → (send false pick e (close_queue (close_closed s))).0 ≡ panics)
unfolding begin_record send close_closed close_queue
record-close-panics s e o = (rw (begin_record, o) refl, λ pick. refl)

-- A send on an open channel.
send-calm :
    {Event : Type 0} (done pick : Bool) (e : Event) (s : FileSink Event)
    → s.queue_closed ≡ false
    → (send done pick e s).0 ≢ panics
unfolding send
send-calm done pick e s o = rw (send, o) (ground arith)

goes_on : {A : Type 0} (b : Bool) (x y : A) → b ≡ false → (if neg b then x else y) ≡ x
goes_on b x y q = rw q refl

-- In every state that a sink can be brought to, a Record that nothing comes in between of does not
-- panic.
pub record_event-calm :
    {Event W : Type 0} (env : Outside Event W) (policy : FileSinkPolicy) (done pick : Bool)
    (e : Event) (s : FileSink Event) (t : Tally Event)
    → Reaches env policy s t
    → (record_event done pick e s).0 ≢ panics
unfolding record_event begin_record
record_event-calm env policy done pick e s t d =
    let h = file_sink-Sound env d in
    elim (Bool-cases s.closed) [
      | inl q ↦ rw (record_event, begin_record, q) (λ p. absurd (cc p))
      | inr q ↦ elim (Bool-cases s.queue_closed) [
        | inl c ↦ absurd (cc (h.shut c, q))
        | inr c ↦
            subst (λ (r : Sent × FileSink _). r.0 ≢ panics) (sym (goes_on s.closed _ _ q))
              (send-calm done pick e s c)
      ]
    ]
