-- ===== src/Sshtail/Tests.antt =====
-- The theorems about log streams on a stream of one line.
use webox.Prelude.{◌≡◌, refl, ℕ, suc, true, [], ◌∷◌, ◌++◌, some, none, length}
use webox.Prelude.Int.{pos}
use webox.Prelude.Text.{codes, contains_any, contains}
use webox.Errors.{ok}
use webox.Sshtail.Escape.{shell_escape, replace_all, validate_log_path}
use webox.Sshtail.Shell.{words, bare}
use webox.Sshtail.Stream.{Streamer, Streaming, stream, run_stream}
use webox.Sshtail.Safety.{Fine, stream-Fine}

hostile : shell_escape (codes "a'; rm b") ≡ codes "'a'\\''; rm b'"
unfolding shell_escape replace_all
hostile = refl

unquoted : words bare none (codes "tail -f a; rm b") ≡ none
unfolding words
unquoted = refl

-- A host that answers one line at each open.
abbrev one_line : Streamer ℕ ℕ
one_line = record {
  open_command = λ c w. (ok (codes "token x" ∷ []), w);
  now = λ w. (pos w, suc w);
  redact = λ t. codes "***";
  parse_log_level = λ t. 0;
  backoff = pos 2 ∷ [];
  sleep = λ d w. (none, w);
  ctx_err = λ w. (none, w);
  emit = λ w. (true, w);
}

abbrev streamed : Streaming ℕ ℕ
streamed =
    run_stream one_line one_line.backoff (codes "tail -n 0 -f " ++ shell_escape (codes "a.log"))
      (record { out = []; opened = []; world = 0 })

streamed_twice : length streamed.opened ≡ 2
unfolding run_stream
streamed_twice = refl

streamed_ok : stream one_line (codes "a.log") 0 ≡ ok streamed
unfolding stream validate_log_path contains_any contains
streamed_ok = refl

stream-Fine_example :
    (words bare none (codes "tail -n 0 -f " ++ shell_escape (codes "a.log"))
      ≡ some (codes "tail" ∷ codes "-n" ∷ codes "0" ∷ codes "-f" ∷ codes "a.log" ∷ []))
    × (validate_log_path (codes "a.log") ≡ none)
    × Fine one_line (codes "tail -n 0 -f " ++ shell_escape (codes "a.log")) 2 streamed
stream-Fine_example = stream-Fine one_line (codes "a.log") 0 streamed streamed_ok
