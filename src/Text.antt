-- ===== src/Text.antt =====
-- Text as the list of its bytes, with the standard library's string functions that the crates use.
-- All texts that the modelled code compares by case or splits are ASCII.
use Prim.Native.Char.{code}
use Prim.Native.String.{String}
use ans_sdk_rust.Prelude.{
  ℕ, zero, suc, ◌+◌, ◌++◌, ◌≡◌, refl, Bool, true, false, ◌&&◌, ◌||◌, List, [], ◌∷◌, map, Option,
  none, some, arith, leb, ltb, ◌==◌, ◌=t◌, if◌then◌else◌,
}

abbrev pub Text : Type 0
Text = List ℕ

abbrev pub codes : String → Text
codes String.[] = []
codes (String.◌∷◌ c s) = code c ∷ codes s

abbrev pub lower : ℕ → ℕ
lower c = if leb b'A' c && leb c b'Z' then c + 32 else c

-- `str::len`, in bytes of UTF-8.
abbrev pub byte_len : Text → ℕ
byte_len [] = 0
byte_len (c ∷ s) =
    let rest = byte_len s in
    (if ltb c 128 then 1 else if ltb c 2048 then 2 else if ltb c 65536 then 3 else 4) + rest

-- `to_ascii_lowercase`
abbrev pub to_lowercase : Text → Text
to_lowercase s = map lower s

unfoldable pub eq_ignore_ascii_case : Text → Text → Bool
eq_ignore_ascii_case a b = to_lowercase a =t to_lowercase b

abbrev pub is_empty {ℓ} : {A : Type ℓ} → List A → Bool
is_empty [] = true
is_empty (x ∷ xs) = false

unfoldable pub strip_prefix : Text → Text → Option Text
strip_prefix [] s = some s
strip_prefix (p ∷ ps) [] = none
strip_prefix (p ∷ ps) (c ∷ s) = if p == c then strip_prefix ps s else none

abbrev cons_opt : ℕ → Option Text → Option Text
cons_opt c none = none
cons_opt c (some s) = some (c ∷ s)

unfoldable pub strip_suffix : Text → Text → Option Text
strip_suffix suffix [] = if is_empty suffix then some [] else none
strip_suffix suffix (c ∷ s) =
    let rest = cons_opt c (strip_suffix suffix s) in if (c ∷ s) =t suffix then some [] else rest

-- `trim_end_matches(c)`
unfoldable pub trim_end : ℕ → Text → Text
trim_end c [] = []
trim_end c (x ∷ xs) = let rest = trim_end c xs in if is_empty rest && (x == c) then [] else x ∷ rest

-- `char::is_whitespace`
abbrev pub is_whitespace : ℕ → Bool
is_whitespace c =
    (leb 9 c && leb c 13)
    || ((c == 32)
        || ((c == 133)
            || ((c == 160)
                || ((c == 5760)
                    || ((leb 8192 c && leb c 8202)
                        || ((c == 8232)
                            || ((c == 8233) || ((c == 8239) || ((c == 8287) || (c == 12288))))))))))

abbrev pub trim_start : Text → Text
trim_start [] = []
trim_start (c ∷ s) = let rest = trim_start s in if is_whitespace c then rest else c ∷ s

abbrev pub trim_space : Text → Text
trim_space [] = []
trim_space (c ∷ s) =
    let rest = trim_space s in if is_empty rest && is_whitespace c then [] else c ∷ rest

-- `str::trim`
abbrev pub trim : Text → Text
trim s = trim_space (trim_start s)

abbrev pub cons_head : ℕ → List Text → List Text
cons_head c [] = (c ∷ []) ∷ []
cons_head c (p ∷ ps) = (c ∷ p) ∷ ps

-- `split(c)`: never an empty list.
unfoldable pub split : ℕ → Text → List Text
split sep [] = [] ∷ []
split sep (c ∷ s) = let rest = split sep s in if c == sep then [] ∷ rest else cons_head c rest

pub lower_idem : (c : ℕ) → lower (lower c) ≡ lower c
lower_idem c = ground arith

pub to_lowercase_idem : (s : Text) → to_lowercase (to_lowercase s) ≡ to_lowercase s
to_lowercase_idem [] = refl
to_lowercase_idem (c ∷ s) = ground (arith, lower_idem c, to_lowercase_idem s)

pub lower-dot : (c : ℕ) → (lower c == b'.') ≡ (c == b'.')
lower-dot c = ground arith

pub is_empty-map : (s : Text) → is_empty (to_lowercase s) ≡ is_empty s
is_empty-map [] = refl
is_empty-map (c ∷ s) = refl

pub trim_end_idem : (c : ℕ) (s : Text) → trim_end c (trim_end c s) ≡ trim_end c s
unfolding trim_end
trim_end_idem c [] = refl
trim_end_idem c (x ∷ xs) = ground (arith, trim_end_idem c xs)

pub trim_end-to_lowercase :
    (s : Text) → trim_end b'.' (to_lowercase s) ≡ to_lowercase (trim_end b'.' s)
unfolding trim_end
trim_end-to_lowercase [] = refl
trim_end-to_lowercase (c ∷ s) =
    ground (arith, trim_end-to_lowercase s, is_empty-map (trim_end b'.' s), lower-dot c)

cons_head-map :
    (c : ℕ) (ps : List Text)
    → cons_head (lower c) (map to_lowercase ps) ≡ map to_lowercase (cons_head c ps)
cons_head-map c [] = refl
cons_head-map c (p ∷ ps) = refl

pub split-to_lowercase : (s : Text) → split b'.' (to_lowercase s) ≡ map to_lowercase (split b'.' s)
unfolding split
split-to_lowercase [] = refl
split-to_lowercase (c ∷ s) =
    ground (arith, split-to_lowercase s, lower-dot c, cons_head-map c (split b'.' s))

-- A text without the separator.
abbrev pub NoSep : ℕ → Text → Type 0
NoSep sep [] = Unit
NoSep sep (c ∷ s) = ((c == sep) ≡ false) × NoSep sep s

pub NoSep-append : (sep : ℕ) (a b : Text) → NoSep sep a → NoSep sep b → NoSep sep (a ++ b)
NoSep-append sep [] b h k = k
NoSep-append sep (c ∷ a) b (p, h) k = (p, NoSep-append sep a b h k)

-- The text up to the first separator, and what follows it.
unfoldable pub break_at : ℕ → Text → Option (Text × Text)
break_at sep [] = none
break_at sep (c ∷ s) =
    let rest = break_at sep s in
    if c == sep then some ([], s) else elim rest [ none ↦ none | some (a, b) ↦ some (c ∷ a, b) ]

-- `splitn(n, c)`
unfoldable pub splitn : ℕ → ℕ → Text → List Text
splitn zero sep s = []
splitn (suc zero) sep s = s ∷ []
splitn (suc (suc n)) sep s = elim (break_at sep s) [
  | none ↦ s ∷ []
  | some (a, b) ↦ a ∷ splitn (suc n) sep b
]

pub break_at_lem : (sep : ℕ) (a b : Text) → NoSep sep a → break_at sep (a ++ sep ∷ b) ≡ some (a, b)
unfolding break_at
break_at_lem sep [] b h = ground arith
break_at_lem sep (c ∷ a) b (p, h) = ground (arith, break_at_lem sep a b h)

pub split_lem : (sep : ℕ) (a b : Text) → NoSep sep a → split sep (a ++ sep ∷ b) ≡ a ∷ split sep b
unfolding split
split_lem sep [] b h = ground arith
split_lem sep (c ∷ a) b (p, h) = ground (arith, split_lem sep a b h)

pub split_last : (sep : ℕ) (a : Text) → NoSep sep a → split sep a ≡ a ∷ []
unfolding split
split_last sep [] h = refl
split_last sep (c ∷ a) (p, h) = ground (arith, split_last sep a h)

pub strip_prefix-append : (p s : Text) → strip_prefix p (p ++ s) ≡ some s
unfolding strip_prefix
strip_prefix-append [] s = refl
strip_prefix-append (c ∷ p) s = ground (arith, strip_prefix-append p s)

pub splitn_lem :
    (n sep : ℕ) (a b : Text)
    → NoSep sep a
    → splitn (suc (suc n)) sep (a ++ sep ∷ b) ≡ a ∷ splitn (suc n) sep b
unfolding splitn
splitn_lem n sep a b h = rw (break_at_lem sep a b h, splitn)
