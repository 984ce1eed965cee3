-- ===== src/Telemetry/Close.antt =====
-- What Close leaves behind.
use webox.Prelude.{
  ◌≡◌, refl, sym, ap, subst, ◌∙◌, Bool, true, false, List, [], ◌∷◌, ◌++◌, Option, some, none,
  append-nil,
}
use webox.Telemetry.Sink.{
  FileSinkPolicy, Outside, FileSink, close_closed, close_queue, write_event, drain_step, write_all,
  flush_queue_remainder, close,
}
use webox.Telemetry.Steps.{Tally, Reaches, after_drain}
use webox.Telemetry.Writes.{write_event-Wrote}
use webox.Telemetry.Accounts.{file_sink-Sound}

after_drain-sent :
    {Event : Type 0} (o : Option (Event × Bool)) (t : Tally Event) → (after_drain o t).sent ≡ t.sent
after_drain-sent none t = refl
after_drain-sent (some (e, true)) t = refl
after_drain-sent (some (e, false)) t = refl

module _ {Event W : Type 0} where
  -- A sink whose queue has been taken to its end, with the same events sent.
  abbrev pub Emptied : Outside Event W → FileSinkPolicy → FileSink Event → Tally Event → Type 0
  Emptied env policy s t =
      (t' : Tally Event) × Reaches env policy s t'
      × (s.queue ≡ [])
      × (s.closed ≡ true)
      × (t'.sent ≡ t.sent)

module _ {Event W : Type 0} (env : Outside Event W) (policy : FileSinkPolicy) where
  -- A turn of the writer at a queue with an event at its head.
  drained :
      (s : FileSink Event) (w : W) (e : Event) (rest : List Event)
      → s.queue ≡ e ∷ rest
      → (o : Option (Event × Bool)) × (drain_step env s w ≡ (
        o,
        (write_event env e (record s { queue = rest }) w).1,
        (write_event env e (record s { queue = rest }) w).2,
      ))
  unfolding drain_step
  drained s w e rest o =
      (some (e, (write_event env e (record s { queue = rest }) w).0), rw (drain_step, o) refl)

  write_all-Emptied :
      (q : List Event) (s : FileSink Event) (t : Tally Event) (w : W)
      → s.queue ≡ q
      → s.closed ≡ true
      → Reaches env policy s t
      → Emptied env policy (write_all env q s w).0 t
  unfolding write_all
  write_all-Emptied [] s t w o c d =
      subst (λ (u : FileSink Event). Emptied env policy u t) (ap (λ q. record s { queue = q }) o)
        (t, d, o, c, refl)
  write_all-Emptied (e ∷ rest) s t w o c d =
      let wrote = write_event env e (record s { queue = rest }) w in
      let k = write_event-Wrote env e (record s { queue = rest }) w in
      let step = drained s w e rest o in
      let t1 : Tally Event = after_drain (drain_step env s w).0 t in
      let d1 : Reaches env policy wrote.1 t1 =
        subst (λ (u : FileSink Event). Reaches env policy u t1) (ap (λ p. p.1) step.1)
          (Reaches.drains w d) in
      let later =
        write_all-Emptied rest wrote.1 t1 wrote.2 (ap (λ u. u.queue) k.1)
          (ap (λ u. u.closed) k.1 ∙ c) d1 in
      (later.0, later.1, later.2, later.3, later.4 ∙ after_drain-sent (drain_step env s w).0 t)

  -- Take any state that a new sink was brought to, not closed. Close, with nobody else at it, leaves the queue empty: by then
  -- the writer has taken every event that was sent, in the order sent.
  pub close-Emptied :
      (s : FileSink Event) (t : Tally Event) (w : W)
      → s.closed ≡ false
      → Reaches env policy s t
      → (t' : Tally Event) × Reaches env policy (close env s w).1 t'
        × ((close env s w).1.queue ≡ [])
        × (t'.taken ≡ t.sent)
  unfolding close flush_queue_remainder close_closed close_queue
  close-Emptied s t w o d =
      let shut : FileSink Event = close_queue (close_closed s) in
      let e =
        write_all-Emptied s.queue shut t w refl refl (Reaches.shuts refl (Reaches.closes d)) in
      let h = file_sink-Sound env e.1 in
      rw (close, o)
        (e.0, e.1, e.2, sym (h.fifo ∙ ap (◌++◌ e.0.taken) e.2 ∙ append-nil e.0.taken) ∙ e.4)
