-- ===== src/Smallhost/Adapter/Commands.antt =====
-- The commands that the adapter sends.
use webox.Prelude.{
  ◌≡◌, refl, subst, ◌∙◌, ℕ, Bool, true, ◌||◌, List, [], ◌∷◌, ◌++◌, none, ◌==◌, arith, All,
  Bool-cases, Option-cases, inl, inr,
}
use webox.Prelude.Int.{ℤ}
use webox.Prelude.Decimal.{format_int}
use webox.Prelude.Decimal.Codes.{all-format_int}
use webox.Prelude.Text.{Text, codes, text_eq}
use webox.Prelude.Words.{is_lower, is_upper, is_digit, all, join, ends_with}
use webox.Prelude.Words.Pieces.{all-append, all_mono}
use webox.Errors.{ok, ok-injective}
use webox.Smallhost.Paths.{
  domains_root, subdir_logs, validate_domain, validate_user, validate_db_name, db_name_matches,
  is_db_code, is_version_code, is_user_code, validate_node_version, node_version_matches, join_rest,
  join_path, path_under, get_log_path,
}
use webox.Smallhost.Paths.Accepted.{is_domain_code, validate_domain_iff, labels-codes}
use webox.Smallhost.Paths.Segments.{user_codes}
use webox.Smallhost.Adapter.{
  database_mysql, database_postgres, db_add_subcommand, db_delete_subcommand, clamp_tail_lines,
  tail_command,
}

-- Codes that a shell takes as they stand, and the space between the words.
abbrev pub is_plain : ℕ → Bool
is_plain c =
    is_lower c
    || is_upper c
    || is_digit c
    || c == 32
    || c == b'.'
    || c == b'-'
    || c == b'_'
    || c == b'/'

abbrev pub IsPlain : Text → Type 0
IsPlain s = all is_plain s ≡ true

pub join-IsPlain : (ts : List Text) → All IsPlain ts → IsPlain (join 32 ts)
unfolding join all
join-IsPlain [] h = refl
join-IsPlain (t ∷ []) h = h.0
join-IsPlain (t ∷ u ∷ ts) h =
    all-append is_plain t (32 ∷ join 32 (u ∷ ts)) ∙ ground (arith, h.0, join-IsPlain (u ∷ ts) h.1)

pub domain-IsPlain : (domain : Text) → validate_domain domain ≡ none → IsPlain domain
domain-IsPlain domain h =
    all_mono is_domain_code is_plain domain (λ c k. ground arith)
      (labels-codes domain ((validate_domain_iff domain).0 h).1)

pub db_name-IsPlain : (name : Text) → validate_db_name name ≡ none → IsPlain name
unfolding validate_db_name db_name_matches
db_name-IsPlain name h = all_mono is_db_code is_plain name (λ c k. ground arith) (ground (arith, h))

pub node_version-IsPlain : (version : Text) → validate_node_version version ≡ none → IsPlain version
unfolding validate_node_version node_version_matches
node_version-IsPlain version h =
    all_mono is_version_code is_plain version (λ c k. ground arith) (ground (arith, h))

join_rest-IsPlain :
    (ss : List Text) (path : Text) → IsPlain path → All IsPlain ss → IsPlain (join_rest path ss)
unfolding join_rest all
join_rest-IsPlain [] path h hs = h
join_rest-IsPlain (s ∷ ss) path h hs = elim (Bool-cases (ends_with b'/' path)) [
  | inl ends ↦
      rw (join_rest, ends)
        (join_rest-IsPlain ss (path ++ s) (all-append is_plain path s ∙ ground (arith, h, hs.0))
          hs.1)
  | inr open_end ↦
      rw (join_rest, open_end)
        (join_rest-IsPlain ss ((path ++ b'/' ∷ []) ++ s)
          (all-append is_plain (path ++ b'/' ∷ []) s
            ∙ rw (all-append is_plain path (b'/' ∷ [])) (ground (arith, h, hs.0)))
          hs.1)
]

pub get_log_path-IsPlain : (user domain : Text) → IsPlain (get_log_path user domain)
unfolding get_log_path path_under join_path all
get_log_path-IsPlain user domain = elim (Option-cases (validate_domain domain)) [
  | inr (e, q) ↦ rw (get_log_path, path_under, q) refl
  | inl d ↦ elim (Option-cases (validate_user user)) [
    | inr (e, q) ↦ rw (get_log_path, path_under, d, q) refl
    | inl u ↦
        rw (get_log_path, path_under, d, u)
          (join_rest-IsPlain (user ∷ codes "domains" ∷ domain ∷ subdir_logs ∷ []) domains_root refl
            (
              all_mono is_user_code is_plain user (λ c k. ground arith) (user_codes user u),
              (refl, (domain-IsPlain domain d, (refl, tt))),
            ))
  ]
]

pub tail_command-IsPlain :
    (log_dir : Text) (lines : ℤ) → IsPlain log_dir → IsPlain (tail_command log_dir lines)
unfolding tail_command join_path all
tail_command-IsPlain log_dir lines h =
    join-IsPlain
      (codes "tail"
        ∷ codes "-n"
        ∷ format_int (clamp_tail_lines lines)
        ∷ codes "--"
        ∷ join_path (log_dir ∷ codes "node.log" ∷ [])
        ∷ join_path (log_dir ∷ codes "error.log" ∷ [])
        ∷ [])
      (
        refl,
        (
          refl,
          (
            all-format_int is_plain (clamp_tail_lines lines) (λ c k. ground arith) refl,
            (
              refl,
              (
                join_rest-IsPlain (codes "node.log" ∷ []) log_dir h (refl, tt),
                (join_rest-IsPlain (codes "error.log" ∷ []) log_dir h (refl, tt), tt),
              ),
            ),
          ),
        ),
      )

pub add_subcommand-IsPlain : (kind sub : Text) → db_add_subcommand kind ≡ ok sub → IsPlain sub
unfolding db_add_subcommand all
add_subcommand-IsPlain kind sub e = elim (Bool-cases (text_eq kind database_mysql)) [
  | inl q ↦ subst IsPlain (ok-injective (rw (db_add_subcommand, q) at e)) refl
  | inr n ↦ elim (Bool-cases (text_eq kind database_postgres)) [
    | inl q ↦ subst IsPlain (ok-injective (rw (db_add_subcommand, n, q) at e)) refl
    | inr m ↦ absurd (cc (rw (db_add_subcommand, n, m) at e))
  ]
]

pub delete_subcommand-IsPlain : (kind sub : Text) → db_delete_subcommand kind ≡ ok sub → IsPlain sub
unfolding db_delete_subcommand all
delete_subcommand-IsPlain kind sub e = elim (Bool-cases (text_eq kind database_mysql)) [
  | inl q ↦ subst IsPlain (ok-injective (rw (db_delete_subcommand, q) at e)) refl
  | inr n ↦ elim (Bool-cases (text_eq kind database_postgres)) [
    | inl q ↦ subst IsPlain (ok-injective (rw (db_delete_subcommand, n, q) at e)) refl
    | inr m ↦ absurd (cc (rw (db_delete_subcommand, n, m) at e))
  ]
]
