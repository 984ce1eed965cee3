-- ===== src/Telemetry/Steps.antt =====
-- The steps of callers, of the writer and of Close at a sink, with a tally of what they did.
use webox.Prelude.{◌≡◌, ℕ, suc, Bool, true, false, List, [], ◌∷◌, ◌++◌, Option, none, some}
use webox.Telemetry.Sink.{
  FileSinkPolicy, Outside, FileSink, new_file_sink, Sent, ignored, queued, abandoned, overflowed,
  panics, send, close_closed, close_queue, drain_step,
}

-- The events that went into the queue, those that the writer took, how many of these it wrote and
-- how many it failed to write, and how many events met a full queue.
pub record Tally (Event : Type 0) : Type 0 where
  pub sent : List Event
  pub taken : List Event
  pub written : ℕ
  pub failed : ℕ
  pub overflowed : ℕ
  pub panicked : Bool

module _ {Event : Type 0} where
  abbrev pub no_tally : Tally Event
  no_tally = record {
    sent = [];
    taken = [];
    written = 0;
    failed = 0;
    overflowed = 0;
    panicked = false;
  }

  abbrev pub after_send : Sent → Event → Tally Event → Tally Event
  after_send ignored e t = t
  after_send queued e t = record t { sent = t.sent ++ e ∷ [] }
  after_send abandoned e t = t
  after_send overflowed e t = record t { overflowed = suc t.overflowed }
  after_send panics e t = record t { panicked = true }

  abbrev pub after_drain : Option (Event × Bool) → Tally Event → Tally Event
  after_drain none t = t
  after_drain (some (e, true)) t = record t { taken = t.taken ++ e ∷ []; written = suc t.written }
  after_drain (some (e, false)) t = record t { taken = t.taken ++ e ∷ []; failed = suc t.failed }

-- The states that callers and the writer bring a sink to. A send may come at any time after its
-- look at `closed`, so it is a step of its own.
pub data Reaches {Event W : Type 0} (env : Outside Event W) (policy : FileSinkPolicy)
    : FileSink Event → Tally Event → Type 0 where
  starts : Reaches env policy (new_file_sink policy) no_tally
  sends :
      {s : FileSink Event} {t : Tally Event} (done pick_send : Bool) (e : Event)
      → Reaches env policy s t
      → Reaches env policy (send done pick_send e s).1 (after_send (send done pick_send e s).0 e t)
  drains :
      {s : FileSink Event} {t : Tally Event} (w : W)
      → Reaches env policy s t
      → Reaches env policy (drain_step env s w).1 (after_drain (drain_step env s w).0 t)
  closes :
      {s : FileSink Event} {t : Tally Event}
      → Reaches env policy s t
      → Reaches env policy (close_closed s) t
  shuts :
      {s : FileSink Event} {t : Tally Event}
      → s.closed ≡ true
      → Reaches env policy s t
      → Reaches env policy (close_queue s) t
