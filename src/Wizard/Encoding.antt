-- ===== src/Wizard/Encoding.antt =====
-- A working encoding of snapshots, for a witness about wizard/pending_cleanups.go.
use webox.Prelude.{
  ◌≡◌, refl, ap, ◌∙◌, ℕ, zero, suc, List, [], ◌∷◌, ◌++◌, Option, none, some, length,
}
use webox.Prelude.Int.{ℤ, pos, negsuc}
use webox.Prelude.Text.{Text}
use webox.Prelude.Encoding.{flatten_words, words_of, words_of-flatten_words}
use webox.Errors.{Result, ok, err, plain}
use webox.Wizard.Step.{
  CleanupStep, Params, ResourceKind, subdomain, ssl, database, github_repo, github_deploy_key,
  github_actions_secret, github_workflow_file, other,
}
use webox.Wizard.Pending.{PendingCleanups}

abbrev kind_code : ResourceKind → Text
kind_code subdomain = 0 ∷ []
kind_code ssl = 1 ∷ []
kind_code database = 2 ∷ []
kind_code github_repo = 3 ∷ []
kind_code github_deploy_key = 4 ∷ []
kind_code github_actions_secret = 5 ∷ []
kind_code github_workflow_file = 6 ∷ []
kind_code (other k) = 7 ∷ k

abbrev kind_of : Text → ResourceKind
kind_of [] = other []
kind_of (zero ∷ k) = subdomain
kind_of (suc zero ∷ k) = ssl
kind_of (suc (suc zero) ∷ k) = database
kind_of (suc (suc (suc zero)) ∷ k) = github_repo
kind_of (suc (suc (suc (suc zero))) ∷ k) = github_deploy_key
kind_of (suc (suc (suc (suc (suc zero)))) ∷ k) = github_actions_secret
kind_of (suc (suc (suc (suc (suc (suc zero))))) ∷ k) = github_workflow_file
kind_of (_ ∷ k) = other k

kind_of-kind_code : (k : ResourceKind) → kind_of (kind_code k) ≡ k
kind_of-kind_code subdomain = refl
kind_of-kind_code ssl = refl
kind_of-kind_code database = refl
kind_of-kind_code github_repo = refl
kind_of-kind_code github_deploy_key = refl
kind_of-kind_code github_actions_secret = refl
kind_of-kind_code github_workflow_file = refl
kind_of-kind_code (other k) = refl

abbrev put_params : Params → List Text → List Text
put_params [] ws = ws
put_params ((k, v) ∷ ps) ws = k ∷ v ∷ put_params ps ws

abbrev take_params : ℕ → List Text → Params × List Text
take_params zero ws = ([], ws)
take_params (suc n) [] = ([], [])
take_params (suc n) (k ∷ []) = ([], [])
take_params (suc n) (k ∷ v ∷ ws) = let r = take_params n ws in ((k, v) ∷ r.0, r.1)

take-put_params :
    (ps : Params) (ws : List Text) → take_params (length ps) (put_params ps ws) ≡ (ps, ws)
take-put_params [] ws = refl
take-put_params ((k, v) ∷ ps) ws = ap (λ r. ((k, v) ∷ r.0, r.1)) (take-put_params ps ws)

put_params-append :
    (ps : Params) (ws t : List Text) → put_params ps ws ++ t ≡ put_params ps (ws ++ t)
put_params-append [] ws t = refl
put_params-append ((k, v) ∷ ps) ws t = ap (λ r. k ∷ v ∷ r) (put_params-append ps ws t)

abbrev put_steps : List CleanupStep → List Text → List Text
put_steps [] ws = ws
put_steps (s ∷ ss) ws =
    s.name
    ∷ kind_code s.kind
    ∷ (s.created_at ∷ length s.params ∷ [])
    ∷ put_params s.params (put_steps ss ws)

put_steps-append :
    (ss : List CleanupStep) (ws t : List Text) → put_steps ss ws ++ t ≡ put_steps ss (ws ++ t)
put_steps-append [] ws t = refl
put_steps-append (s ∷ ss) ws t =
    ap (λ r. s.name ∷ kind_code s.kind ∷ (s.created_at ∷ length s.params ∷ []) ∷ r)
      (put_params-append s.params (put_steps ss ws) t
        ∙ ap (put_params s.params) (put_steps-append ss ws t))

abbrev take_steps : ℕ → List Text → List CleanupStep
take_steps zero ws = []
take_steps (suc n) (name ∷ kind ∷ (t ∷ p ∷ []) ∷ ws) =
    let r = take_params p ws in
    record { name = name; kind = kind_of kind; params = r.0; created_at = t } ∷ take_steps n r.1
take_steps (suc n) _ = []

take-put_steps :
    (ss : List CleanupStep) (ws : List Text) → take_steps (length ss) (put_steps ss ws) ≡ ss
take-put_steps [] ws = refl
take-put_steps (s ∷ ss) ws =
    ap
      (λ (r : Params × List Text).
        record {
          name = s.name;
          kind = kind_of (kind_code s.kind);
          params = r.0;
          created_at = s.created_at;
        }
        ∷ take_steps (length ss) r.1)
      (take-put_params s.params (put_steps ss ws))
    ∙ ap
        (λ k.
          record { name = s.name; kind = k; params = s.params; created_at = s.created_at }
          ∷ take_steps (length ss) (put_steps ss ws))
        (kind_of-kind_code s.kind)
    ∙ ap (◌∷◌ s) (take-put_steps ss ws)

abbrev time_code : Option ℕ → Text
time_code none = []
time_code (some t) = t ∷ []

abbrev time_of : Text → Option ℕ
time_of [] = none
time_of (t ∷ ts) = some t

abbrev int_code : ℤ → Text
int_code (pos n) = 0 ∷ n ∷ []
int_code (negsuc n) = 1 ∷ n ∷ []

abbrev int_of : Text → ℤ
int_of (zero ∷ n ∷ ts) = pos n
int_of (suc s ∷ n ∷ ts) = negsuc n
int_of _ = pos 0

time_of-time_code : (t : Option ℕ) → time_of (time_code t) ≡ t
time_of-time_code none = refl
time_of-time_code (some t) = refl

int_of-int_code : (z : ℤ) → int_of (int_code z) ≡ z
int_of-int_code (pos n) = refl
int_of-int_code (negsuc n) = refl

abbrev parts_of : PendingCleanups → List Text → List Text
parts_of s ws =
    s.wizard_id
    ∷ s.profile_alias
    ∷ time_code s.updated_at
    ∷ int_code s.schema_version
    ∷ (length s.steps ∷ [])
    ∷ put_steps s.steps ws

abbrev pub encode : PendingCleanups → Result Text
encode s = ok (flatten_words (parts_of s []))

abbrev read_snapshot : List Text → Result PendingCleanups
read_snapshot (id ∷ profile ∷ time ∷ schema ∷ (n ∷ []) ∷ ws) = ok (record {
  schema_version = int_of schema;
  wizard_id = id;
  profile_alias = profile;
  updated_at = time_of time;
  steps = take_steps n ws;
})
read_snapshot _ = err plain

abbrev pub decode : Text → Result PendingCleanups
decode raw = read_snapshot (words_of raw)

pub decode-encode :
    (s : PendingCleanups) (t : Text) → decode (flatten_words (parts_of s []) ++ t) ≡ ok s
decode-encode s t =
    ap read_snapshot (
      words_of-flatten_words (parts_of s []) t
      ∙ ap
          (λ r.
            s.wizard_id
            ∷ s.profile_alias
            ∷ time_code s.updated_at
            ∷ int_code s.schema_version
            ∷ (length s.steps ∷ [])
            ∷ r)
          (put_steps-append s.steps [] (words_of t)))
    ∙ rw
        (
          int_of-int_code s.schema_version,
          time_of-time_code s.updated_at,
          take-put_steps s.steps (words_of t),
        )
        refl
