-- ===== src/Types/Version.antt =====
-- crates/ans-types/src/types.rs: `Version`, its order, and its text form.
mod Decimal
use ans_sdk_rust.Prelude.{
  ℕ, ◌≡◌, refl, ◌↔◌, Bool, true, false, ltb, ◌==◌, ◌&&◌, ◌||◌, arith, Eq, List, [], ◌∷◌, ◌++◌,
  Option, none, some, ◌<◌,
}
use ans_sdk_rust.Text.{Text, codes, NoSep, NoSep-append, split, split_lem, split_last, strip_prefix}
use ans_sdk_rust.Error.{Result, ok, err, ParseError, invalid_version}
unfoldable pub use Decimal.{u32_mod, parse_u32, show_u32}
pub use Decimal.{parse_u32-show_u32, show_u32-NoSep, is_digit, show_u32-All}

pub record Version : Type 0 where
  pub major : ℕ
  pub minor : ℕ
  pub patch : ℕ

abbrev pub version_eq : Version → Version → Bool
version_eq a b = (a.major == b.major) && (a.minor == b.minor) && (a.patch == b.patch)

-- `a < b` in the derived, lexicographic order
abbrev pub version_lt : Version → Version → Bool
version_lt a b =
    ltb a.major b.major
    || (a.major == b.major) && (ltb a.minor b.minor || (a.minor == b.minor) && ltb a.patch b.patch)

pub version_eq_iff : (a b : Version) → (version_eq a b ≡ true) ↔ (a ≡ b)
version_eq_iff a b = ground arith

instance abbrev pub version_eq_instance : Eq Version
version_eq_instance = record { beq = version_eq; beq_iff = version_eq_iff }

-- The three numbers fit `u32`.
pub record IsU32 (v : Version) : Type 0 where
  pub major : v.major < u32_mod
  pub minor : v.minor < u32_mod
  pub patch : v.patch < u32_mod

abbrev of_parts : Option ℕ → Option ℕ → Option ℕ → Result ParseError Version
of_parts (some a) (some b) (some c) = ok (record { major = a; minor = b; patch = c })
of_parts _ _ _ = err invalid_version

abbrev strip_v : Text → Text
strip_v [] = []
strip_v (c ∷ s) = elim (c == b'v') [ true ↦ s | false ↦ c ∷ s ]

abbrev of_split : List Text → Result ParseError Version
of_split (a ∷ b ∷ c ∷ []) = of_parts (parse_u32 a) (parse_u32 b) (parse_u32 c)
of_split _ = err invalid_version

-- `Version::parse`
unfoldable pub parse : Text → Result ParseError Version
parse s = of_split (split b'.' (strip_v s))

-- The text after the `v` of `Display`.
unfoldable pub show_numbers : Version → Text
show_numbers v = show_u32 v.major ++ b'.' ∷ (show_u32 v.minor ++ b'.' ∷ show_u32 v.patch)

unfoldable pub to_string : Version → Text
to_string v = b'v' ∷ show_numbers v

split-show_numbers :
    (v : Version)
    → split b'.' (show_numbers v) ≡ show_u32 v.major ∷ show_u32 v.minor ∷ show_u32 v.patch ∷ []
unfolding show_numbers
split-show_numbers v = rw (
  split_lem b'.' (show_u32 v.major) _ (show_u32-NoSep v.major),
  split_lem b'.' (show_u32 v.minor) _ (show_u32-NoSep v.minor),
  split_last b'.' (show_u32 v.patch) (show_u32-NoSep v.patch),
)

-- A version that is printed is parsed back to itself.
pub version_parse-to_string : (v : Version) → IsU32 v → parse (to_string v) ≡ ok v
unfolding parse to_string
version_parse-to_string v h = rw (
  split-show_numbers v,
  parse_u32-show_u32 v.major h.major,
  parse_u32-show_u32 v.minor h.minor,
  parse_u32-show_u32 v.patch h.patch,
)
