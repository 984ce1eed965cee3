-- ===== src/Ssh/Target.antt =====
-- ssh/types.go: Target, and the key that the pool keeps its clients under. Alias is carried, and is
-- no part of the key.
use webox.Prelude.{◌≡◌, refl, ap, sym, ◌∙◌, false, ◌∷◌, ◌++◌, append_assoc}
use webox.Prelude.Int.{ℤ}
use webox.Prelude.Text.{Text, contains_code}
use webox.Prelude.Decimal.{format_int, IsInt64}
use webox.Prelude.Decimal.Codes.{split_first, split_last, colon-format_int, format_int-injective}

pub record Target : Type 0 where
  pub host : Text
  pub port : ℤ
  pub user : Text
  pub alias : Text

unfoldable pub key : Target → Text
key t = t.user ++ b'@' ∷ (t.host ++ b':' ∷ format_int t.port)

-- Two targets whose users have no `@` and whose ports are int64 have one key only when user, host
-- and port are the same.
pub key-injective :
    (s t : Target)
    → contains_code b'@' s.user ≡ false
    → contains_code b'@' t.user ≡ false
    → IsInt64 s.port
    → IsInt64 t.port
    → key s ≡ key t
    → (s.user ≡ t.user) × (s.host ≡ t.host) × (s.port ≡ t.port)
unfolding key
key-injective s t hs ht ps pt e =
    let (user, rest) =
      split_first b'@' s.user t.user (s.host ++ b':' ∷ format_int s.port)
        (t.host ++ b':' ∷ format_int t.port) hs ht e in
    let (host, port) =
      split_last b':' s.host t.host (format_int s.port) (format_int t.port)
        (colon-format_int s.port) (colon-format_int t.port) rest in
    (user, host, format_int-injective s.port t.port ps pt port)

-- For every text `x` there are two targets with other users and hosts, and one key.
pub key-collides :
    (x : Text) (port : ℤ) (alias : Text)
    → (s : Target) × (t : Target) × (key s ≡ key t) × (s.user ≡ x) × (t.user ≡ x ++ b'@' ∷ x)
unfolding key
key-collides x port alias =
    let split : (rest : Text) → (x ++ b'@' ∷ x) ++ rest ≡ x ++ b'@' ∷ (x ++ rest) =
      λ rest. append_assoc x (b'@' ∷ x) rest in
    (
      record { host = x ++ b'@' ∷ x; port = port; user = x; alias = alias },
      record { host = x; port = port; user = x ++ b'@' ∷ x; alias = alias },
      ap (λ z. x ++ b'@' ∷ z) (split (b':' ∷ format_int port))
          ∙ sym (split (b'@' ∷ (x ++ b':' ∷ format_int port))),
      refl,
      refl,
    )
