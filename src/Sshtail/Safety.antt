-- ===== src/Sshtail/Safety.antt =====
-- What a stream runs on the host, and what it gives out.
use webox.Prelude.{
  ◌≡◌, refl, sym, subst, ◌∙◌, ℕ, suc, ◌+◌, ◌≤◌, Bool, true, false, List, [], ◌∷◌, ◌++◌, none, some,
  if◌then◌else◌, arith, All, All-append, length, length-append, Option-cases, inl, inr,
}
use webox.Prelude.Int.{ℤ}
use webox.Prelude.Text.{Text, codes}
use webox.Errors.{is_some, ok-injective, wrap, Result, ok, err, Result-cases}
use webox.Sshtail.Escape.{shell_escape, validate_log_path}
use webox.Sshtail.Shell.{words, bare, words-command}
use webox.Sshtail.Stream.{
  Line, Streamer, Streaming, line_of, copy_lines, handle_open_failure, run_session, run_stream,
  stream,
}

module _ {L W : Type 0} (s : Streamer L W) where
  -- A line that was redacted on its way, and marked if that changed it.
  abbrev pub Shown : Line L → Type 0
  Shown l = (text : Text) × (time : ℤ) × (l ≡ line_of s text time)

  -- At most `n` sessions, each of one command, and only lines that were redacted.
  abbrev pub Fine : Text → ℕ → Streaming L W → Type 0
  Fine command n t = All (λ c. c ≡ command) t.opened × (length t.opened ≤ n) × All Shown t.out

  if-Fine :
      (command : Text) (n : ℕ) (b : Bool) (t u : Streaming L W)
      → Fine command n t
      → Fine command n u
      → Fine command n (if b then t else u)
  if-Fine command n true t u h g = h
  if-Fine command n false t u h g = g

  if-Fine-pair :
      (command : Text) (n : ℕ) (b : Bool) (t u : Bool × Streaming L W)
      → Fine command n t.1
      → Fine command n u.1
      → Fine command n (if b then t else u).1
  if-Fine-pair command n true t u h g = h
  if-Fine-pair command n false t u h g = g

  copy_lines-Fine :
      (command : Text) (n : ℕ) (texts : List Text) (t : Streaming L W)
      → Fine command n t
      → Fine command n (copy_lines s texts t).1
  unfolding copy_lines
  copy_lines-Fine command n [] t h = h
  copy_lines-Fine command n (text ∷ texts) t h =
      let time : ℤ × W = s.now (s.ctx_err t.world).1 in
      let ih =
        copy_lines-Fine command n texts
          (record t { out = t.out ++ line_of s text time.0 ∷ []; world = (s.emit time.1).1 })
          (
            h.0,
            h.1,
            All-append Shown t.out (line_of s text time.0 ∷ []) h.2 ((text, time.0, refl), tt),
          ) in
      if-Fine-pair command n (is_some (s.ctx_err t.world).0) _ _ h
        (if-Fine-pair command n (s.emit time.1).0 _ _ ih h)

  run_session-Fine :
      (command : Text) (n : ℕ) (t : Streaming L W)
      → Fine command n t
      → Fine command (suc n) (run_session s command t).1
  unfolding run_session
  run_session-Fine command n t h =
      let read : Result (List Text) × W = s.open_command command t.world in
      let t' : Streaming L W = record t { opened = t.opened ++ command ∷ []; world = read.1 } in
      let h' : Fine command (suc n) t' = (
        All-append (λ c. c ≡ command) t.opened (command ∷ []) h.0 (refl, tt),
        omega (arith, h.1, length-append t.opened (command ∷ [])),
        h.2,
      ) in
      elim (Result-cases read.0) [
        | inl (lines, q) ↦ rw (run_session, q) (copy_lines-Fine command (suc n) lines t' h')
        | inr (e, q) ↦ rw (run_session, q) h'
      ]

  handle_open_failure-Fine :
      (command : Text) (n : ℕ) (delay : ℤ) (t : Streaming L W)
      → Fine command n t
      → Fine command n (handle_open_failure s delay t).1
  unfolding handle_open_failure
  handle_open_failure-Fine command n delay t h =
      if-Fine-pair command n (is_some (s.sleep delay t.world).0) _ _ h h

  weaken :
      (command : Text) (n m : ℕ) (t : Streaming L W) → n ≤ m → Fine command n t → Fine command m t
  weaken command n m t l h = (h.0, omega (arith, l, h.1), h.2)

  run_stream-Fine :
      (command : Text) (n : ℕ) (delays : List ℤ) (t : Streaming L W)
      → Fine command n t
      → Fine command (n + suc (length delays)) (run_stream s delays command t)
  unfolding run_stream
  run_stream-Fine command n [] t h =
      let t' : Streaming L W = record t { world = (s.ctx_err t.world).1 } in
      if-Fine command (n + 1) (is_some (s.ctx_err t.world).0) _ _
        (weaken command n (n + 1) t (omega arith) h)
        (weaken command (suc n) (n + 1) (run_session s command t').1 (omega arith)
          (run_session-Fine command n t' h))
  run_stream-Fine command n (delay ∷ delays) t h =
      let m : ℕ = n + suc (suc (length delays)) in
      let t' : Streaming L W = record t { world = (s.ctx_err t.world).1 } in
      let session : Streaming L W = (run_session s command t').1 in
      let retry : Streaming L W = (handle_open_failure s delay session).1 in
      let f : Fine command (suc n) session = run_session-Fine command n t' h in
      let g : Fine command (suc n) retry =
        handle_open_failure-Fine command (suc n) delay session f in
      if-Fine command m (is_some (s.ctx_err t.world).0) _ _ (weaken command n m t' (omega arith) h)
        (if-Fine command m (run_session s command t').0 _ _
          (weaken command (suc n) m session (omega arith) f)
          (if-Fine command m (handle_open_failure s delay session).0 _ _
            (weaken command (suc n + suc (length delays)) m (run_stream s delays command retry)
              (omega arith) (run_stream-Fine command (suc n) delays retry g))
            (weaken command (suc n) m retry (omega arith) g)))

  -- A stream that Stream opens: the log path has passed validateLogPath; a shell splits each command
  -- that was run into the words tail, -n, 0, -f and the path as given; at most one session more
  -- than there are delays was opened; and each line given out was redacted, and is marked exactly
  -- if that changed it.
  pub stream-Fine :
      (log_path : Text) (w : W) (t : Streaming L W)
      → stream s log_path w ≡ ok t
      → (words bare none (codes "tail -n 0 -f " ++ shell_escape log_path)
          ≡ some (codes "tail" ∷ codes "-n" ∷ codes "0" ∷ codes "-f" ∷ log_path ∷ []))
        × (validate_log_path log_path ≡ none)
        × Fine (codes "tail -n 0 -f " ++ shell_escape log_path) (suc (length s.backoff)) t
  unfolding stream
  stream-Fine log_path w t h = elim (Option-cases (validate_log_path log_path)) [
    | inl q ↦
        let command : Text = codes "tail -n 0 -f " ++ shell_escape log_path in
        let start : Streaming L W = record { out = []; opened = []; world = w } in
        let o : stream s log_path w ≡ ok (run_stream s s.backoff command start) =
          rw (stream, q) refl in
        (
          words-command log_path,
          q,
          subst (λ (u : Streaming L W). Fine command (suc (length s.backoff)) u)
              (ok-injective (sym o ∙ h))
              (weaken command (0 + suc (length s.backoff)) (suc (length s.backoff))
                (run_stream s s.backoff command start) (omega arith)
                (run_stream-Fine command 0 s.backoff start (tt, omega arith, tt))),
        )
    | inr (e, q) ↦
        let o : stream s log_path w ≡ err (wrap e) = rw (stream, q) refl in absurd (cc (o, h))
  ]
