-- ===== src/Smallhost/Paths/Segments.antt =====
-- The paths of a domain, cut at their slashes.
use webox.Prelude.{
  ◌≡◌, refl, sym, ◌∙◌, ◌≢◌, ◌⊎◌, inl, inr, ℕ, Bool, true, false, List, [], ◌∷◌, ◌++◌, none, ◌==◌,
  arith, neg, All, append-nil, append_assoc, Option-cases,
}
use webox.Prelude.Text.{Text, codes, is_empty, trim_space, trim_left}
use webox.Prelude.Words.{all, split, ends_with}
use webox.Prelude.Words.Pieces.{split-append, split_one, ends_with-append, ends_with_none, all_mono}
use webox.Smallhost.Paths.{
  domains_root, subdir_nodejs, subdir_public, subdir_logs, env_filename, subdir_storage_img,
  is_user_code, validate_domain, validate_user, user_matches, join_rest, join_path, path_under,
  get_deploy_path, get_log_path, env_path, storage_path,
}
use webox.Smallhost.Paths.Accepted.{validate_domain_iff, labels-codes}

abbrev not_slash : ℕ → Bool
not_slash c = neg (c == b'/')

-- A name in a path.
abbrev pub IsSegment : Text → Type 0
IsSegment s = (is_empty s ≡ false) × (all not_slash s ≡ true)

segment-ends : (path s : Text) → IsSegment s → ends_with b'/' (path ++ b'/' ∷ s) ≡ false
unfolding ends_with
segment-ends path [] h = cc
segment-ends path (c ∷ s) h =
    ends_with-append b'/' b'/' path (c ∷ s) ∙ ends_with_none b'/' (c ∷ s) h.1

split-join_rest :
    (path : Text) (ss : List Text)
    → ends_with b'/' path ≡ false
    → All IsSegment ss
    → split b'/' (join_rest path ss) ≡ split b'/' path ++ ss
unfolding join_rest
split-join_rest path [] e h = sym (append-nil (split b'/' path))
split-join_rest path (s ∷ ss) e h =
    rw (join_rest, e)
      (rw
        (
          append_assoc path (b'/' ∷ []) s,
          split-join_rest (path ++ b'/' ∷ s) ss (segment-ends path s h.0) h.1,
          split-append b'/' path s,
          split_one b'/' s h.0.1,
          append_assoc (split b'/' path) (s ∷ []) ss,
        )
        refl)

abbrev root_segments : Text → Text → List Text
root_segments user domain = [] ∷ codes "usr" ∷ codes "home" ∷ user ∷ codes "domains" ∷ domain ∷ []

domain_filled : (domain : Text) → validate_domain domain ≡ none → is_empty domain ≡ false
unfolding validate_domain trim_space trim_left
domain_filled [] h = cc
domain_filled (c ∷ d) h = refl

domain-IsSegment : (domain : Text) → validate_domain domain ≡ none → IsSegment domain
domain-IsSegment domain h =
    let labels = ((validate_domain_iff domain).0 h).1 in
    (
      domain_filled domain h,
      all_mono _ not_slash domain (λ c k. ground arith) (labels-codes domain labels),
    )

pub user_codes : (user : Text) → validate_user user ≡ none → all is_user_code user ≡ true
unfolding validate_user user_matches
user_codes user h = ground (arith, h)

user-IsSegment : (user : Text) → validate_user user ≡ none → IsSegment user
unfolding validate_user
user-IsSegment user h =
    (ground (arith, h), all_mono _ not_slash user (λ c k. ground arith) (user_codes user h))

split-join_path :
    (user domain : Text) (rest : List Text)
    → IsSegment user
    → IsSegment domain
    → All IsSegment rest
    → split b'/' (join_path (domains_root ∷ user ∷ codes "domains" ∷ domain ∷ rest))
      ≡ root_segments user domain ++ rest
unfolding join_path
split-join_path user domain rest u d r =
    split-join_rest domains_root (user ∷ codes "domains" ∷ domain ∷ rest) (unfold ends_with in refl)
      (u, (unfold all in (refl, refl), (d, r)))
    ∙ unfold split in refl

-- A path that is given only for an accepted user and domain, below the directory of the domain.
abbrev pub IsUnder : Text → Text → List Text → Text → Type 0
IsUnder user domain rest path =
    ((validate_domain domain ≢ none) ⊎ (validate_user user ≢ none)) × (path ≡ [])
    ⊎ (validate_domain domain ≡ none)
      × (validate_user user ≡ none)
      × (split b'/' path ≡ root_segments user domain ++ rest)

path_under-IsUnder :
    (user domain : Text) (rest : List Text)
    → All IsSegment rest
    → IsUnder user domain rest (path_under user rest domain)
unfolding path_under
path_under-IsUnder user domain rest r = elim (Option-cases (validate_domain domain)) [
  | inr (e, q) ↦ inl (inl (λ n. cc (q, n)), rw (path_under, q) refl)
  | inl d ↦ elim (Option-cases (validate_user user)) [
    | inr (e, q) ↦ inl (inr (λ n. cc (q, n)), rw (path_under, d, q) refl)
    | inl u ↦ inr (
      d,
      u,
      rw (path_under, d, u)
          (split-join_path user domain rest (user-IsSegment user u) (domain-IsSegment domain d) r),
    )
  ]
]

-- Each path that the adapter gives for a domain is empty exactly when the domain or the user is
-- refused, and else, cut at its slashes, it is /usr/home, the user, domains, the domain, and then
-- the names of that path: no domain and no user leads out of this directory.
pub paths-IsUnder :
    (user domain : Text)
    → IsUnder user domain (subdir_nodejs ∷ subdir_public ∷ []) (get_deploy_path user domain)
      × IsUnder user domain (subdir_logs ∷ []) (get_log_path user domain)
      × IsUnder user domain (subdir_nodejs ∷ env_filename ∷ []) (env_path user domain)
      × IsUnder user domain
          (subdir_nodejs ∷ subdir_public ∷ subdir_storage_img ∷ [])
          (storage_path user domain)
unfolding get_deploy_path get_log_path env_path storage_path all
paths-IsUnder user domain = (
  path_under-IsUnder user domain _ ((refl, refl), ((refl, refl), tt)),
  path_under-IsUnder user domain _ ((refl, refl), tt),
  path_under-IsUnder user domain _ ((refl, refl), ((refl, refl), tt)),
  path_under-IsUnder user domain _ ((refl, refl), ((refl, refl), ((refl, refl), tt))),
)
