-- ===== src/Sshtail/Stream.antt =====
-- services/sshtail/stream.go: Stream, with its goroutine run to the end.
use webox.Prelude.{Bool, true, false, List, [], ◌∷◌, ◌++◌, Option, none, some, if◌then◌else◌, neg}
use webox.Prelude.Int.{ℤ}
use webox.Prelude.Text.{Text, codes, text_eq}
use webox.Errors.{is_some, Error, wrap, Result, ok, err}
use webox.Sshtail.Escape.{shell_escape, validate_log_path}

pub record Line (L : Type 0) : Type 0 where
  pub timestamp : ℤ
  pub raw : Text
  pub level : L
  pub redacted : Bool

-- What a stream reaches the outside by. A reader is the list of the lines that the scanner gives
-- before it ends; `emit` says whether a line went into the channel before the context ended.
pub record Streamer (L W : Type 0) : Type 0 where
  pub open_command : Text → W → Result (List Text) × W
  pub now : W → ℤ × W
  pub redact : Text → Text
  pub parse_log_level : Text → L
  pub backoff : List ℤ
  pub sleep : ℤ → W → Option Error × W
  pub ctx_err : W → Option Error × W
  pub emit : W → Bool × W

-- The lines given out so far, the commands opened so far, and the world.
pub record Streaming (L W : Type 0) : Type 0 where
  pub out : List (Line L)
  pub opened : List Text
  pub world : W

module _ {L W : Type 0} (s : Streamer L W) where
  unfoldable pub line_of : Text → ℤ → Line L
  line_of text time = record {
    timestamp = time;
    raw = s.redact text;
    level = s.parse_log_level (s.redact text);
    redacted = neg (text_eq (s.redact text) text);
  }

  -- copyLines: true when the context ended.
  unfoldable pub copy_lines : List Text → Streaming L W → Bool × Streaming L W
  unfolding line_of
  copy_lines [] t = let ended = s.ctx_err t.world in (is_some ended.0, record t { world = ended.1 })
  copy_lines (text ∷ texts) t =
      let ended = s.ctx_err t.world in
      let time = s.now ended.1 in
      let sent = s.emit time.1 in
      let rest =
        copy_lines texts (record t { out = t.out ++ line_of text time.0 ∷ []; world = sent.1 }) in
      if is_some ended.0
      then (true, record t { world = ended.1 })
      else if sent.0
      then rest
      else (true, record t { world = sent.1 })

  -- handleOpenFailure with the delay of this attempt.
  unfoldable pub handle_open_failure : ℤ → Streaming L W → Bool × Streaming L W
  handle_open_failure delay t =
      let slept = s.sleep delay t.world in
      let ended = s.ctx_err slept.1 in
      if is_some slept.0
      then (false, record t { world = slept.1 })
      else (neg (is_some ended.0), record t { world = ended.1 })

  -- One session: true when the context ended, and nothing more is to be tried.
  unfoldable pub run_session : Text → Streaming L W → Bool × Streaming L W
  unfolding copy_lines
  run_session command t =
      let read = s.open_command command t.world in
      let t' : Streaming L W = record t { opened = t.opened ++ command ∷ []; world = read.1 } in
      elim read.0 [ ok lines ↦ copy_lines lines t' | err e ↦ (false, t') ]

  -- runStream, on the delays that are left: the attempt ends the loop when none is.
  unfoldable pub run_stream : List ℤ → Text → Streaming L W → Streaming L W
  unfolding run_session handle_open_failure
  run_stream [] command t =
      let ended = s.ctx_err t.world in
      let t' : Streaming L W = record t { world = ended.1 } in
      if is_some ended.0 then t' else (run_session command t').1
  run_stream (delay ∷ delays) command t =
      let ended = s.ctx_err t.world in
      let t' : Streaming L W = record t { world = ended.1 } in
      let session = run_session command t' in
      let retry = handle_open_failure delay session.1 in
      let rest = run_stream delays command retry.1 in
      if is_some ended.0
      then t'
      else if session.0
      then session.1
      else if retry.0
      then rest
      else retry.1

  -- Stream.
  unfoldable pub stream : Text → W → Result (Streaming L W)
  unfolding run_stream
  stream log_path w = elim (validate_log_path log_path) [
    | some e ↦ err (wrap e)
    | none ↦ ok (
        run_stream s.backoff (codes "tail -n 0 -f " ++ shell_escape log_path)
          (record { out = []; opened = []; world = w }))
  ]
