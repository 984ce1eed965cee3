-- ===== src/Telemetry/Tests.antt =====
-- The theorems about the trace file on a small sink.
use webox.Prelude.{◌≡◌, refl, ℕ, Bool, true, false, [], ◌∷◌, Option, some, none}
use webox.Prelude.Int.{pos}
use webox.Prelude.Text.{Text, codes}
use webox.Errors.{Error}
use webox.Telemetry.Sink.{
  FileSinkPolicy, Outside, FileSink, new_file_sink, begin_record, send, record_event, close,
  close_closed, close_queue, panics, Sent, queued, overflowed,
}
use webox.Telemetry.Steps.{Tally, Reaches, no_tally, after_send}
use webox.Telemetry.Accounts.{Sound, file_sink-Sound}
use webox.Telemetry.Close.{close-Emptied}
use webox.Telemetry.Races.{record-close-panics}

-- Events are texts that marshal to themselves, unless they are empty; all writes succeed.
abbrev marshal_text : Text → ℕ → Option Text × ℕ
marshal_text [] w = (none, w)
marshal_text (c ∷ s) w = (some (c ∷ s), w)

abbrev outside : Outside Text ℕ
outside = record {
  marshal = marshal_text;
  redact = λ t. codes "***";
  write = λ t w. (true, w);
  flush = λ w. (none, w);
  close_file = λ w. (none, w);
}

abbrev one_place : FileSinkPolicy
one_place = record { buffer_size = pos 0; flush_interval = pos 0; queue = pos 1 }

abbrev secret : Text
secret = codes "s3cret"

abbrev first : Sent × FileSink Text
first = record_event false true secret (new_file_sink one_place)

abbrev second : Sent × FileSink Text
second = record_event false true (codes "late") first.1

abbrev after_close : Option Error × FileSink Text × ℕ
after_close = close outside second.1 0

run :
    (first.0 ≡ queued)
    × (second.0 ≡ overflowed)
    × (after_close.1.output ≡ codes "***" ∷ (10 ∷ []) ∷ [])
    × (after_close.1.dropped ≡ 1)
unfolding record_event new_file_sink close
run = (refl, refl, refl, refl)

abbrev sent_one :
    Reaches outside one_place
      (send false true secret (new_file_sink one_place)).1
      (after_send (send false true secret (new_file_sink one_place)).0 secret no_tally)
sent_one = Reaches.sends false true secret Reaches.starts

file_sink-Sound_example :
    Sound outside
      (send false true secret (new_file_sink one_place)).1
      (after_send (send false true secret (new_file_sink one_place)).0 secret no_tally)
file_sink-Sound_example = file_sink-Sound outside sent_one

record-close-panics_example :
    (begin_record (new_file_sink {Event = Text} one_place) ≡ true)
    × ((pick : Bool)
        → (send false pick secret (close_queue (close_closed (new_file_sink one_place)))).0
          ≡ panics)
unfolding new_file_sink
record-close-panics_example = record-close-panics (new_file_sink one_place) secret refl

close-Emptied_example :
    (t' : Tally Text) × Reaches outside one_place
      (close outside (send false true secret (new_file_sink one_place)).1 0).1
      t'
    × ((close outside (send false true secret (new_file_sink one_place)).1 0).1.queue ≡ [])
    × (t'.taken
        ≡ (after_send (send false true secret (new_file_sink one_place)).0 secret no_tally).sent)
unfolding send new_file_sink
close-Emptied_example =
    close-Emptied outside one_place (send false true secret (new_file_sink one_place)).1
      (after_send (send false true secret (new_file_sink one_place)).0 secret no_tally) 0 refl
      sent_one
