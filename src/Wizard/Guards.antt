-- ===== src/Wizard/Guards.antt =====
-- The checks before and beside an execution, on concrete texts, a panel and a disk.
use webox.Prelude.Text.{lookup}
use webox.Prelude.Text.{text_eq}
use webox.Wizard.Secret.{is_secret_shaped}
use webox.Wizard.Stack.{first_invalid}
use webox.Wizard.Step.{bad_key_id}
use webox.Wizard.Step.{has_secret}
use webox.Wizard.Step.{lacks_param}
use webox.Wizard.Step.{param}
use webox.Wizard.Step.{validate_step}
use webox.Prelude.{refl, sym, ap, ◌∙◌, ◌++◌, ℕ, ◌≡◌, false, Bool, [], ◌∷◌, Option, none, some, All}
use webox.Prelude.Text.{Text, codes}
use webox.Errors.{Error, ok, ok-injective}
use webox.Providers.{HostingProvider}
use webox.Wizard.Step.{CleanupStep, subdomain, database}
use webox.Wizard.Pending.{
  Disk, Read, missing, bytes, snapshot_of, load_pending, new_file_persister_with_profile,
}
use webox.Presets.Order.{text_lt}
use webox.Wizard.Encoding.{encode, decode, decode-encode}
use webox.Wizard.Pending.Saved.{Relies, IsAscending, persister-load_pending}

-- A panel that has no subdomain and no status.
abbrev panel : HostingProvider ℕ
panel = record {
  name = codes "smallhost";
  check_status = λ w. (w, none, none);
  list_subdomains = λ w. (w, ok []);
  create_subdomain = λ d v w. (w, none);
  setup_ssl = λ d w. (w, none);
  create_database = λ k n w. (w, ok (codes "user", codes "secret"));
  remove_subdomain = λ d w. (w, none);
  remove_ssl = λ d w. (w, none);
  remove_database = λ k n w. (w, none);
}

-- A matcher that takes nothing as pinned.
abbrev never : Text → Bool
never t = false

abbrev first_step : CleanupStep
first_step = record {
  name = codes "Remove subdomain a.example.org";
  kind = subdomain;
  params = (codes "domain", codes "a.example.org") ∷ [];
  created_at = 0;
}

abbrev second_step : CleanupStep
second_step = record {
  name = codes "Remove database";
  kind = database;
  params = (codes "dbKind", codes "mysql") ∷ (codes "dbName", codes "shop") ∷ [];
  created_at = 5;
}

-- The file, and the temporary file beside it.
record Box : Type 0 where
  file : Read
  temp : Option Text

abbrev moved : Option Text → Read
moved none = missing
moved (some t) = bytes t

-- A disk where every action goes well.
abbrev disk : Disk Box
disk = record {
  ctx_err = λ w. (w, none);
  now = λ w. 7;
  read_file = λ w. w.file;
  unmarshal = decode;
  marshal = encode;
  mkdir_all = λ w. (w, none);
  temp_path = λ w. (w, ok (codes "x.tmp"));
  open_temp = λ t w. (record w { temp = some [] }, none);
  write_temp = λ t raw w. (record w { temp = some raw }, none);
  sync_temp = λ t w. (w, none);
  rename = λ t w. (record { file = moved w.temp; temp = none }, none);
  remove_temp = λ t w. record w { temp = none };
  open_dir = λ w. (w, none);
  sync_dir = λ w. (w, none);
  remove = λ w. (record w { file = missing }, none);
}

disk-Relies : Relies disk (λ t w. w.temp)
disk-Relies = record {
  wrote = λ tmp raw w o. refl;
  synced = λ tmp w. refl;
  renamed = λ tmp raw w h o. ap moved h;
  opened_dir = λ w. refl;
  synced_dir = λ w. refl;
  decodes = λ snap raw sorted valid o.
      ap (λ t. decode (t ++ 10 ∷ [])) (sym (ok-injective o)) ∙ decode-encode snap (10 ∷ []);
}

abbrev no_file : Box
no_file = record { file = missing; temp = none }

abbrev after_save : Box × Option Error
after_save =
    new_file_persister_with_profile disk (codes "w1") (codes "main") (first_step ∷ second_step ∷ [])
      no_file

was_saved : after_save.1 ≡ none
unfolding new_file_persister_with_profile first_invalid validate_step has_secret is_secret_shaped
    lacks_param param lookup text_eq bad_key_id
was_saved = refl

params-IsAscending : All (λ (s : CleanupStep). IsAscending s.params) (first_step ∷ second_step ∷ [])
unfolding text_lt
params-IsAscending = (tt, ((refl, tt), tt))

persister-load_pending_example :
    load_pending disk after_save.0
    ≡ ok (some (snapshot_of (codes "w1") (codes "main") 7 (first_step ∷ second_step ∷ [])))
persister-load_pending_example =
    persister-load_pending disk (λ t w. w.temp) disk-Relies (codes "w1") (codes "main") first_step
      (second_step ∷ []) no_file params-IsAscending was_saved
