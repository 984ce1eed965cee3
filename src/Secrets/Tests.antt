-- ===== src/Secrets/Tests.antt =====
-- The theorems about the encrypted file on a vault of two entries, with a toy cipher.
use webox.Prelude.{
  ◌≡◌, append-nil, refl, sym, ap, ◌∙◌, ℕ, suc, List, [], ◌∷◌, ◌++◌, Option, some, none, drop,
  replicate, length-replicate, arith,
}
use webox.Prelude.Int.{pos}
use webox.Prelude.Text.{Text, codes, insert, lookup, text_eq}
use webox.Prelude.Encoding.{flatten_words, words_of, words_of-flatten_words}
use webox.Errors.{ok-injective, Error, plain, Result, ok, err}
use webox.Files.{Disk}
use webox.Secrets.File.{Outside, VaultPayload, persist_locked}
use webox.Secrets.Vault.{FallbackBackend, new_fallback, init_fallback, set_secret, rotate_password}
use webox.Secrets.Saved.{Relies}
use webox.Secrets.History.{Call, put, rotate, run_calls}
use webox.Secrets.Calls.{Kept, new_fallback-Kept}
use webox.Secrets.Rotation.{Either, rotate_password-failed}

-- A toy encoding of entries as the list of their names and values.
abbrev listed : List (Text × Text) → List Text
listed [] = []
listed ((k, v) ∷ m) = k ∷ v ∷ listed m

abbrev encode : List (Text × Text) → Text
encode m = flatten_words (listed m)

abbrev encode_payload : Option (List (Text × Text)) → Result Text
encode_payload none = err plain
encode_payload (some m) = ok (encode m)

abbrev pairs : List Text → List (Text × Text)
pairs [] = []
pairs (k ∷ []) = []
pairs (k ∷ v ∷ ws) = (k, v) ∷ pairs ws

abbrev decode : Text → Result VaultPayload
decode t = ok (record { schema = pos 1; entries = some (pairs (words_of t)) })

abbrev fine : ℕ → Option Error × ℕ
fine w = (none, w)

abbrev outside : Outside ℕ
outside = record {
  derive_key = λ p s. p ++ s;
  new_gcm = λ k. none;
  gcm_seal = λ k n p. replicate 16 0 ++ p;
  gcm_open = λ k n c. some (drop 16 c);
  marshal = λ p. encode_payload p.entries;
  unmarshal = decode;
  read_random = λ n w. (replicate n w, suc w);
  read_error = fine;
  mkdir_all = fine;
  lock_exclusive = fine;
  unlock = λ w. w;
  open_temp = fine;
  write_temp = λ t. fine;
  sync_temp = fine;
  close_temp = fine;
  remove_temp = λ w. w;
  rename = fine;
  sync_dir = fine;
}

pairs-listed : (m : List (Text × Text)) → pairs (listed m ++ []) ≡ m
pairs-listed [] = refl
pairs-listed ((k, v) ∷ m) = ap (◌∷◌ (k, v)) (pairs-listed m)

pairs-encode : (m : List (Text × Text)) → pairs (words_of (encode m)) ≡ m
pairs-encode m =
    ap (λ t. pairs (words_of t)) (sym (append-nil (encode m)))
    ∙ ap pairs (words_of-flatten_words (listed m) [])
    ∙ pairs-listed m

encode_decodes :
    (m : List (Text × Text)) (t : Text)
    → ok (encode m) ≡ ok t
    → (m' : List (Text × Text)) × (decode t ≡ ok (record { schema = pos 1; entries = some m' }))
      × ((k : Text) → lookup k m' ≡ lookup k m)
encode_decodes m t h = (
  m,
  ap (λ x. ok (record { schema = pos 1; entries = some x }))
      (ap (λ x. pairs (words_of x)) (sym (ok-injective h)) ∙ pairs-encode m),
  λ k. refl,
)

outside-Relies : Relies outside
outside-Relies = record {
  opens = λ k n p. refl;
  tagged = λ k n p. ground arith;
  fills = λ n w. length-replicate n w;
  decodes = encode_decodes;
}

abbrev no_file : Disk ℕ
no_file = record { file = none; world = 0 }

abbrev password : Text
password = codes "correct horse"

abbrev opened : Result FallbackBackend × Disk ℕ
opened = new_fallback outside password no_file

abbrev backend : FallbackBackend
backend = (init_fallback outside password no_file).0

abbrev rest : List Call
rest =
    put (codes "b") (codes "yy")
    ∷ rotate (codes "battery staple")
    ∷ put (codes "a") (codes "z")
    ∷ []

abbrev disk : Disk ℕ
disk = (init_fallback outside password no_file).1

opened_ok : new_fallback outside password no_file ≡ (ok backend, disk)
unfolding new_fallback
opened_ok = refl

all_done : (run_calls outside (put (codes "a") (codes "x") ∷ rest) backend disk).0 ≡ none
unfolding run_calls set_secret init_fallback persist_locked insert rotate_password text_eq
all_done = refl

new_fallback-Kept_example :
    Kept outside outside-Relies
      (put (codes "a") (codes "x") ∷ rest)
      password
      backend
      (run_calls outside (put (codes "a") (codes "x") ∷ rest) backend disk)
new_fallback-Kept_example =
    new_fallback-Kept outside outside-Relies password (codes "a") (codes "x") rest no_file disk
      backend opened_ok all_done

-- A host whose directory cannot be synced: the password is not changed, but the file is.
abbrev unsynced : Outside ℕ
unsynced = record outside { sync_dir = λ w. (some plain, w) }

unsynced-Relies : Relies unsynced
unsynced-Relies = record {
  opens = λ k n p. refl;
  tagged = λ k n p. ground arith;
  fills = λ n w. length-replicate n w;
  decodes = encode_decodes;
}

abbrev failed : Option Error × FallbackBackend × Disk ℕ
failed = rotate_password unsynced (codes "battery staple") backend disk

failed_error : failed.0 ≡ some plain
unfolding rotate_password init_fallback persist_locked
failed_error = refl

rotate_password-failed_example :
    (failed.1 ≡ backend)
    × Either unsynced unsynced-Relies (codes "battery staple") backend disk failed.2
rotate_password-failed_example =
    rotate_password-failed unsynced unsynced-Relies (codes "battery staple") backend disk plain
      failed_error
