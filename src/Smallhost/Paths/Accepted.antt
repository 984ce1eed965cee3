-- ===== src/Smallhost/Paths/Accepted.antt =====
-- What the validators accept.
use webox.Prelude.{
  ◌≡◌, refl, ◌↔◌, ◌≤◌, ℕ, zero, suc, Bool, true, false, ◌||◌, List, [], ◌∷◌, none, ◌==◌, ltb, arith,
  neg, length, All,
}
use webox.Prelude.Text.{Text, codes, text_eq, text_eq_iff, trim_space, is_space}
use webox.Prelude.Words.{all, split, ends_with, byte_length}
use webox.Prelude.Words.Pieces.{all-split, all_mono, trim_space_none}
use webox.Smallhost.Paths.{
  label_tail, label_matches, is_alnum, is_label_code, bad_byte, bad_label, validate_domain,
  max_domain_length,
}

-- A label of a host name: letters, digits and inner hyphens, at most 63 of them.
abbrev pub IsLabel : Text → Type 0
IsLabel [] = ⊥
IsLabel (c ∷ s) =
    (is_alnum c ≡ true)
    × (all is_label_code s ≡ true)
    × (ends_with b'-' s ≡ false)
    × (length s ≤ 62)

label_tail_iff :
    (n c : ℕ) (s : Text)
    → (label_tail n (c ∷ s) ≡ true)
      ↔ ((all is_label_code (c ∷ s) ≡ true) × (ends_with b'-' (c ∷ s) ≡ false) × (length s ≤ n))
unfolding label_tail all ends_with
label_tail_iff n c [] = ground arith
label_tail_iff zero c (d ∷ s) = ground arith
label_tail_iff (suc n) c (d ∷ s) = ground (arith, label_tail_iff n d s)

label_matches_iff : (l : Text) → (label_matches l ≡ true) ↔ IsLabel l
unfolding label_matches all ends_with
label_matches_iff [] = ground arith
label_matches_iff (c ∷ []) = ground arith
label_matches_iff (c ∷ d ∷ s) = ground (arith, label_tail_iff 61 d s)

label_codes : (l : Text) → IsLabel l → all is_label_code l ≡ true
unfolding all
label_codes [] h = absurd h
label_codes (c ∷ s) h = ground (arith, h.0, h.1)

-- No label is `..`, and the two tests of a label are one.
bad_label_iff : (ls : List Text) → (bad_label ls ≡ false) ↔ All IsLabel ls
unfolding bad_label
bad_label_iff [] = (λ _. tt, λ _. refl)
bad_label_iff (l ∷ ls) =
    ground (arith, label_matches_iff l, bad_label_iff ls, text_eq_iff l (codes ".."))

-- A code of a domain is one of a label or a dot; such codes pass the other tests.
abbrev pub is_domain_code : ℕ → Bool
is_domain_code c = is_label_code c || c == b'.'

not_bad_byte : (s : Text) → all is_domain_code s ≡ true → bad_byte s ≡ false
unfolding all bad_byte
not_bad_byte [] h = refl
not_bad_byte (c ∷ s) h = ground (arith, not_bad_byte s)

not_space : (c : ℕ) → is_domain_code c ≡ true → neg (is_space c) ≡ true
unfolding is_space
not_space c h = ground arith

-- The codes of the labels are those of the domain.
pub labels-codes :
    (domain : Text) → All IsLabel (split b'.' domain) → all is_domain_code domain ≡ true
labels-codes domain h = all-split is_label_code b'.' domain (go (split b'.' domain) h)
  where
    go : (ls : List Text) → All IsLabel ls → All (λ l. all is_label_code l ≡ true) ls
    go [] h = tt
    go (l ∷ ls) h = (label_codes l h.0, go ls h.1)

pub validate_domain_gate :
    (domain : Text)
    → validate_domain domain ≡ none
    → (ltb max_domain_length (byte_length domain) ≡ false) × (bad_label (split b'.' domain) ≡ false)
unfolding validate_domain
validate_domain_gate domain h = ground (arith, h)

pub accepts_gate :
    (domain : Text)
    → byte_length domain ≤ 253
    → trim_space domain ≡ domain
    → bad_byte domain ≡ false
    → bad_label (split b'.' domain) ≡ false
    → validate_domain domain ≡ none
unfolding validate_domain split bad_label label_matches text_eq
accepts_gate [] size trimmed bytes labels =
    let one : bad_label (split b'.' []) ≡ true = refl in absurd (cc (one, labels))
accepts_gate (c ∷ s) size trimmed bytes labels =
    ground (arith, trimmed, text_eq_iff (trim_space (c ∷ s)) (c ∷ s))

pub validate_domain_iff :
    (domain : Text)
    → (validate_domain domain ≡ none)
      ↔ ((byte_length domain ≤ 253) × All IsLabel (split b'.' domain))
validate_domain_iff domain = (accepted, accepts)
  where
    accepted :
        validate_domain domain ≡ none → (byte_length domain ≤ 253) × All IsLabel (split b'.' domain)
    accepted h =
        let g = validate_domain_gate domain h in
        (ground (arith, g.0), (bad_label_iff (split b'.' domain)).0 g.1)

    accepts :
        (byte_length domain ≤ 253) × All IsLabel (split b'.' domain) → validate_domain domain ≡ none
    accepts h =
        let c : all is_domain_code domain ≡ true = labels-codes domain h.1 in
        accepts_gate domain h.0 (trim_space_none domain (all_mono _ _ domain not_space c))
          (not_bad_byte domain c) ((bad_label_iff (split b'.' domain)).1 h.1)
