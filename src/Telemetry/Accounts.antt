-- ===== src/Telemetry/Accounts.antt =====
-- What becomes of the events that callers give the sink, in any interleaving of its steps.
use webox.Prelude.{
  ◌≡◌, refl, sym, ap, ◌∙◌, ◌+◌, ◌%◌, ◌^◌, ◌≤◌, ◌<◌, Bool, true, false, List, [], ◌∷◌, ◌++◌, ◌⊎◌,
  inl, inr, some, length, arith, All, append_assoc, length-append, Bool-cases,
}
use webox.Telemetry.Sink.{
  FileSinkPolicy, Outside, FileSink, new_file_sink, bump_dropped, queued, abandoned, overflowed,
  panics, send, close_closed, close_queue, write_event, drain_step,
}
use webox.Telemetry.Steps.{Tally, no_tally, after_send, after_drain, Reaches}
use webox.Telemetry.Writes.{Clean, Wrote, write_event-Wrote}

module _ {Event W : Type 0} (env : Outside Event W) where
  -- The accounts of a sink: the events sent are those taken and those in the queue, in order; the
  -- queue keeps to its capacity; each event taken was written or counted, and each that met a full
  -- queue was counted; a send panics only after Close; and all output is clean.
  pub record Sound (s : FileSink Event) (t : Tally Event) : Type 0 where
    pub fifo : t.sent ≡ t.taken ++ s.queue
    pub room : length s.queue ≤ s.capacity
    pub counted : s.dropped ≡ (t.overflowed + t.failed) % 2 ^ 64
    pub each : length t.taken ≡ t.written + t.failed
    pub shut : s.queue_closed ≡ true → s.closed ≡ true
    pub calm : t.panicked ≡ true → s.queue_closed ≡ true
    pub clean : All (Clean env) s.output

  new-Sound : (policy : FileSinkPolicy) → Sound (new_file_sink policy) no_tally
  unfolding new_file_sink
  new-Sound policy = record {
    fifo = refl;
    room = ground arith;
    counted = ground arith;
    each = ground arith;
    shut = λ h. absurd (cc h);
    calm = λ h. absurd (cc h);
    clean = tt;
  }

  -- The three ways of a send, and a send on a closed channel.
  send-cases :
      (done pick : Bool) (e : Event) (s : FileSink Event)
      → (send done pick e s ≡ (abandoned, s))
        ⊎ (send done pick e s ≡ (overflowed, bump_dropped s))
        ⊎ ((send done pick e s ≡ (panics, s)) × (s.queue_closed ≡ true))
        ⊎ ((send done pick e s ≡ (queued, record s { queue = s.queue ++ e ∷ [] }))
            × (length s.queue < s.capacity))
  unfolding send
  send-cases done pick e s = elim (Bool-cases s.queue_closed) [
    | inl q ↦ rw (send, q) (ground (arith, q))
    | inr q ↦ rw (send, q) (ground (arith, q))
  ]

  send-Sound :
      (done pick : Bool) (e : Event) (s : FileSink Event) (t : Tally Event)
      → Sound s t
      → Sound (send done pick e s).1 (after_send (send done pick e s).0 e t)
  unfolding bump_dropped
  send-Sound done pick e s t h = elim (send-cases done pick e s) [
    | inl q ↦ rw q h
    | inr (inl q) ↦ rw q (record {
      fifo = h.fifo;
      room = h.room;
      counted = ground (arith, h.counted);
      each = h.each;
      shut = h.shut;
      calm = h.calm;
      clean = h.clean;
    })
    | inr (inr (inl (q, c))) ↦ rw q (record {
      fifo = h.fifo;
      room = h.room;
      counted = h.counted;
      each = h.each;
      shut = h.shut;
      calm = λ p. c;
      clean = h.clean;
    })
    | inr (inr (inr (q, l))) ↦ rw q (record {
      fifo = rw h.fifo (append_assoc t.taken s.queue (e ∷ []));
      room = ground (arith, l, length-append s.queue (e ∷ []));
      counted = h.counted;
      each = h.each;
      shut = h.shut;
      calm = h.calm;
      clean = h.clean;
    })
  ]

  -- An event taken from the queue.
  taken-Sound :
      (ok : Bool) (s s' : FileSink Event) (t : Tally Event) (e : Event) (rest : List Event)
      → s.queue ≡ e ∷ rest
      → Sound s t
      → Wrote env ok (record s { queue = rest }) s'
      → Sound s' (after_drain (some (e, ok)) t)
  taken-Sound true s s' t e rest o h (out, k, clean) = rw k (record {
    fifo = h.fifo ∙ ap (◌++◌ t.taken) o ∙ sym (append_assoc t.taken (e ∷ []) rest);
    room = ground (arith, h.room, ap (λ q. length q) o);
    counted = h.counted;
    each = ground (arith, h.each, length-append t.taken (e ∷ []));
    shut = h.shut;
    calm = h.calm;
    clean = clean h.clean;
  })
  taken-Sound false s s' t e rest o h (out, k, clean) = rw k (record {
    fifo = h.fifo ∙ ap (◌++◌ t.taken) o ∙ sym (append_assoc t.taken (e ∷ []) rest);
    room = ground (arith, h.room, ap (λ q. length q) o);
    counted = ground (arith, h.counted);
    each = ground (arith, h.each, length-append t.taken (e ∷ []));
    shut = h.shut;
    calm = h.calm;
    clean = clean h.clean;
  })

  drain-Sound :
      (s : FileSink Event) (t : Tally Event) (w : W) (q : List Event)
      → s.queue ≡ q
      → Sound s t
      → Sound (drain_step env s w).1 (after_drain (drain_step env s w).0 t)
  unfolding drain_step
  drain-Sound s t w [] o h = rw (drain_step, o) h
  drain-Sound s t w (e ∷ rest) o h =
      let r : FileSink Event = record s { queue = rest } in
      rw (drain_step, o)
        (taken-Sound (write_event env e r w).0 s (write_event env e r w).1 t e rest o h
          (write_event-Wrote env e r w))

  -- Whatever sends, turns of the writer and steps of Close, in any order, have brought a new sink to:
  -- the events sent are those the writer took followed by those in the queue, in the order sent;
  -- the queue is within its capacity; each event taken was written or counted as dropped, as was
  -- each that met a full queue (modulo 2 ^ 64); a send has panicked only if the queue is closed;
  -- and only redacted lines were written.
  pub file_sink-Sound :
      {policy : FileSinkPolicy} {s : FileSink Event} {t : Tally Event}
      → Reaches env policy s t
      → Sound s t
  unfolding close_closed close_queue
  file_sink-Sound {policy} Reaches.starts = new-Sound policy
  file_sink-Sound (Reaches.sends {s = s} {t = t} done pick e d) =
      send-Sound done pick e s t (file_sink-Sound d)
  file_sink-Sound (Reaches.drains {s = s} {t = t} w d) =
      drain-Sound s t w s.queue refl (file_sink-Sound d)
  file_sink-Sound (Reaches.closes {s = s} {t = t} d) =
      let h = file_sink-Sound d in
      record {
        fifo = h.fifo;
        room = h.room;
        counted = h.counted;
        each = h.each;
        shut = λ q. refl;
        calm = h.calm;
        clean = h.clean;
      }
  file_sink-Sound (Reaches.shuts {s = s} {t = t} c d) =
      let h = file_sink-Sound d in
      record {
        fifo = h.fifo;
        room = h.room;
        counted = h.counted;
        each = h.each;
        shut = λ q. c;
        calm = λ q. refl;
        clean = h.clean;
      }
