-- ===== src/Types/Fqdn.antt =====
-- crates/ans-types/src/types.rs: `Fqdn`.
use ans_sdk_rust.Prelude.{
  ℕ, ◌≡◌, refl, ap, ◌∙◌, Bool, true, false, not, ◌&&◌, ◌||◌, List, [], ◌∷◌, ◌++◌, map, arith, ltb,
  leb, ◌==◌, if◌then◌else◌, length, all, length-map, Bool-cases, inl, inr,
}
use mathlib.Core.Path.{subst}
use ans_sdk_rust.Text.{
  Text, codes, is_empty, lower, to_lowercase, to_lowercase_idem, trim_end, trim_end_idem,
  trim_end-to_lowercase, split, split-to_lowercase, is_empty-map,
}
use ans_sdk_rust.Error.{Result, ok, err, ParseError, invalid_fqdn}

pub record Fqdn : Type 0 where
  pub name : Text

-- `c.is_ascii_alphanumeric() || c == '-'`
abbrev pub label_char : ℕ → Bool
label_char c =
    leb b'0' c && leb c b'9'
    || (leb b'A' c && leb c b'Z' || (leb b'a' c && leb c b'z' || c == b'-'))

abbrev starts_with_hyphen : Text → Bool
starts_with_hyphen [] = false
starts_with_hyphen (c ∷ s) = c == b'-'

abbrev ends_with_hyphen : Text → Bool
ends_with_hyphen [] = false
ends_with_hyphen (c ∷ s) = if is_empty s then c == b'-' else ends_with_hyphen s

-- The tests on one label: each failure returns `ParseError::InvalidFqdn`.
unfoldable pub label_ok : Text → Bool
label_ok label =
    not (is_empty label)
    && (not (ltb 63 (length label))
        && (all label_char label && not (starts_with_hyphen label || ends_with_hyphen label)))

-- `Fqdn::new`
unfoldable pub new : Text → Result ParseError Fqdn
new domain =
    if is_empty domain
    then err invalid_fqdn
    else let trimmed = trim_end b'.' domain in
      if all label_ok (split b'.' trimmed)
      then ok (record { name = to_lowercase trimmed })
      else err invalid_fqdn

abbrev pub ans_badge_name : Fqdn → Text
ans_badge_name f = codes "_ans-badge." ++ f.name

abbrev pub ra_badge_name : Fqdn → Text
ra_badge_name f = codes "_ra-badge." ++ f.name

label_char-lower : (c : ℕ) → label_char (lower c) ≡ label_char c
label_char-lower c = ground arith

hyphen-lower : (c : ℕ) → (lower c == b'-') ≡ (c == b'-')
hyphen-lower c = ground arith

all-label_char : (s : Text) → all label_char (to_lowercase s) ≡ all label_char s
all-label_char [] = refl
all-label_char (c ∷ s) = cc (label_char-lower c, all-label_char s)

starts_with_hyphen-lower : (s : Text) → starts_with_hyphen (to_lowercase s) ≡ starts_with_hyphen s
starts_with_hyphen-lower [] = refl
starts_with_hyphen-lower (c ∷ s) = hyphen-lower c

ends_with_hyphen-lower : (s : Text) → ends_with_hyphen (to_lowercase s) ≡ ends_with_hyphen s
ends_with_hyphen-lower [] = refl
ends_with_hyphen-lower (c ∷ s) = cc (is_empty-map s, hyphen-lower c, ends_with_hyphen-lower s)

label_ok-lower : (s : Text) → label_ok (to_lowercase s) ≡ label_ok s
unfolding label_ok
label_ok-lower s = cc (
  is_empty-map s,
  length-map s lower,
  all-label_char s,
  starts_with_hyphen-lower s,
  ends_with_hyphen-lower s,
)

all-label_ok : (ls : List Text) → all label_ok (map to_lowercase ls) ≡ all label_ok ls
all-label_ok [] = refl
all-label_ok (l ∷ ls) = cc (label_ok-lower l, all-label_ok ls)

-- What `Fqdn::new` establishes: lower case, no trailing dot, and every label well formed.
pub record IsWellFormed (f : Fqdn) : Type 0 where
  pub lowered : to_lowercase f.name ≡ f.name
  pub trimmed : trim_end b'.' f.name ≡ f.name
  pub labels : all label_ok (split b'.' f.name) ≡ true

of_trimmed :
    (d : Text)
    → all label_ok (split b'.' (trim_end b'.' d)) ≡ true
    → IsWellFormed (record { name = to_lowercase (trim_end b'.' d) })
of_trimmed d h = record {
  lowered = to_lowercase_idem (trim_end b'.' d);
  trimmed = trim_end-to_lowercase (trim_end b'.' d) ∙ ap to_lowercase (trim_end_idem b'.' d);
  labels = ap (all label_ok) (split-to_lowercase (trim_end b'.' d)) ∙ all-label_ok _ ∙ h;
}

-- Every accepted name is lower case, has no trailing dot, and has well-formed labels.
pub new-IsWellFormed : (s : Text) (f : Fqdn) → new s ≡ ok f → IsWellFormed f
unfolding new
new-IsWellFormed s f e = elim (Bool-cases (all label_ok (split b'.' (trim_end b'.' s)))) [
  | inl good ↦
      let same : record { name = to_lowercase (trim_end b'.' s) } ≡ f = ground arith in
      subst IsWellFormed same (of_trimmed s good)
  | inr bad ↦ absurd (ground arith)
]

not_empty : (s : Text) → all label_ok (split b'.' s) ≡ true → is_empty s ≡ false
unfolding label_ok split
not_empty [] h = cc
not_empty (c ∷ s) h = refl

-- A well-formed name is parsed back to itself.
pub new_of_IsWellFormed : (f : Fqdn) → IsWellFormed f → new f.name ≡ ok f
unfolding new
new_of_IsWellFormed f h = ground (arith, not_empty f.name)
