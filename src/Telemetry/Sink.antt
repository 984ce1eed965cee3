-- ===== src/Telemetry/Sink.antt =====
-- internal/telemetry/file_sink.go, cut where goroutines can come between: Record between its look
-- at `closed` and its send, the writer at each event, Close at the two channels it closes.
use webox.Prelude.{
  ℕ, ◌+◌, ◌%◌, ◌^◌, Bool, true, false, ◌&&◌, ◌||◌, List, [], ◌∷◌, ◌++◌, Option, none, some, length,
  if◌then◌else◌, ltb, neg,
}
use webox.Prelude.Int.{ℤ, pos, leb_ℤ, pos_part}
use webox.Prelude.Text.{Text}
use webox.Errors.{Error, first_error}

-- The policy without its clock, which stands in the marshalling below.
pub record FileSinkPolicy : Type 0 where
  pub buffer_size : ℤ
  pub flush_interval : ℤ
  pub queue : ℤ

abbrev default_buffer_size : ℤ
default_buffer_size = pos 8192

abbrev default_flush_interval : ℤ
default_flush_interval = pos 500000000

abbrev default_queue : ℤ
default_queue = pos 1024

abbrev or_default : ℤ → ℤ → ℤ
or_default n d = if leb_ℤ n (pos 0) then d else n

unfoldable pub normalize_file_sink_policy : FileSinkPolicy → FileSinkPolicy
normalize_file_sink_policy p = record {
  buffer_size = or_default p.buffer_size default_buffer_size;
  flush_interval = or_default p.flush_interval default_flush_interval;
  queue = or_default p.queue default_queue;
}

-- What the sink reaches the outside by: json.Marshal of the event under the clock's time,
-- log.Redact, and the outcome of bufio's WriteString and Flush and of closing the file.
pub record Outside (Event W : Type 0) : Type 0 where
  pub marshal : Event → W → Option Text × W
  pub redact : Text → Text
  pub write : Text → W → Bool × W
  pub flush : W → Option Error × W
  pub close_file : W → Option Error × W

-- `output` is the text given to the buffered writer so far.
pub record FileSink (Event : Type 0) : Type 0 where
  pub capacity : ℕ
  pub queue : List Event
  pub queue_closed : Bool
  pub closed : Bool
  pub dropped : ℕ
  pub output : List Text

-- What became of a Record: it looked at a closed sink, its event went into the queue, its
-- context ended, the queue was full, or the send met a closed channel.
pub data Sent : Type 0 where
  ignored queued abandoned overflowed panics : Sent

module _ {Event : Type 0} where
  unfoldable pub new_file_sink : FileSinkPolicy → FileSink Event
  unfolding normalize_file_sink_policy
  new_file_sink policy = record {
    capacity = pos_part (normalize_file_sink_policy policy).queue;
    queue = [];
    queue_closed = false;
    closed = false;
    dropped = 0;
    output = [];
  }

  unfoldable pub bump_dropped : FileSink Event → FileSink Event
  bump_dropped s = record s { dropped = (s.dropped + 1) % 2 ^ 64 }

  -- Record's first select: whether it goes on.
  unfoldable pub begin_record : FileSink Event → Bool
  begin_record s = neg s.closed

  -- Record's second select. A send is ready when the queue has room, and on a closed channel, where
  -- it panics; among ready cases the runtime picks, here by `pick_send`.
  unfoldable pub send : Bool → Bool → Event → FileSink Event → Sent × FileSink Event
  unfolding bump_dropped
  send done pick_send e s =
      let ready = s.queue_closed || ltb (length s.queue) s.capacity in
      if ready && (neg done || pick_send)
      then if s.queue_closed then (panics, s) else (queued, record s { queue = s.queue ++ e ∷ [] })
      else if done
      then (abandoned, s)
      else (overflowed, bump_dropped s)

  unfoldable pub record_event : Bool → Bool → Event → FileSink Event → Sent × FileSink Event
  unfolding begin_record send
  record_event done pick_send e s = if begin_record s then send done pick_send e s else (ignored, s)

  -- Close up to its wait for the writer: close(s.closed), then close(s.queue).
  unfoldable pub close_closed : FileSink Event → FileSink Event
  close_closed s = record s { closed = true }

  unfoldable pub close_queue : FileSink Event → FileSink Event
  close_queue s = record s { queue_closed = true }

module _ {Event W : Type 0} (env : Outside Event W) where
  -- A WriteString into the buffered writer.
  unfoldable pub write_text : Text → FileSink Event → W → Bool × FileSink Event × W
  write_text t s w =
      let wrote = env.write t w in
      (wrote.0, if wrote.0 then record s { output = s.output ++ t ∷ [] } else s, wrote.1)

  -- writeEvent, with whether it counted no event as dropped.
  unfoldable pub write_event : Event → FileSink Event → W → Bool × FileSink Event × W
  unfolding write_text bump_dropped
  write_event e s w =
      let marshalled = env.marshal e w in
      elim marshalled.0 [
        | none ↦ (false, bump_dropped s, marshalled.1)
        | some raw ↦
            let line = write_text (env.redact raw) s marshalled.1 in
            let end = write_text (10 ∷ []) line.1 line.2 in
            if line.0
            then (end.0, if end.0 then end.1 else bump_dropped end.1, end.2)
            else (false, bump_dropped line.1, line.2)
      ]

  -- One turn of the writer: the event it takes, if there is one.
  unfoldable pub drain_step : FileSink Event → W → Option (Event × Bool) × FileSink Event × W
  unfolding write_event
  drain_step s w = elim s.queue [
    | [] ↦ (none, s, w)
    | e ∷ rest ↦
        let wrote = write_event e (record s { queue = rest }) w in
        (some (e, wrote.0), wrote.1, wrote.2)
  ]

  -- flushQueueRemainder without its flush: a queue that is closed is taken to its end.
  unfoldable pub write_all : List Event → FileSink Event → W → FileSink Event × W
  unfolding write_event
  write_all [] s w = (record s { queue = [] }, w)
  write_all (e ∷ rest) s w =
      let wrote = write_event e (record s { queue = rest }) w in write_all rest wrote.1 wrote.2

  unfoldable pub flush_queue_remainder : FileSink Event → W → FileSink Event × W
  unfolding write_all
  flush_queue_remainder s w =
      let written = write_all s.queue s w in (written.0, (env.flush written.1).1)

  -- Close with nobody else at the sink, and the error it gives. `closeOnce` has run when `closed`
  -- is set.
  unfoldable pub close : FileSink Event → W → Option Error × FileSink Event × W
  unfolding close_closed close_queue flush_queue_remainder
  close s w =
      let rest = flush_queue_remainder (close_queue (close_closed s)) w in
      let flushed = env.flush rest.1 in
      let shut = env.close_file flushed.1 in
      if s.closed then (none, s, w) else (first_error flushed.0 shut.0, rest.0, shut.1)
