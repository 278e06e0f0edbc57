-- ===== src/Types/Version/Decimal.antt =====
-- `u32` in decimal, as the standard library parses and prints it.
use ans_sdk_rust.Prelude.{
  ℕ, zero, suc, ◌+◌, ◌-◌, ◌*◌, ◌/◌, ◌%◌, ◌^◌, ◌<◌, ◌≡◌, sym, ap, ◌∙◌, Bool, true, false, [], ◌∷◌,
  ◌++◌, Option, none, some, arith, ltb, leb, ◌==◌, ◌&&◌, if◌then◌else◌, Bool-cases, All, All-append,
  inl, inr,
}
use mathlib.Core.List.{append_assoc, append-nil}
use native.Mathlib.Nat.{pow-suc}
use ans_sdk_rust.Text.{Text, NoSep, NoSep-append, is_empty}

abbrev pub u32_mod : ℕ
u32_mod = 4294967296

abbrev pub is_digit : ℕ → Bool
is_digit c = leb b'0' c && leb c b'9'

-- The digit loop of `from_str_radix`, with its overflow check.
parse_digits : ℕ → Text → Option ℕ
parse_digits acc [] = some acc
parse_digits acc (c ∷ s) =
    let next = acc * 10 + (c - b'0') in
    let rest = parse_digits next s in if is_digit c && ltb next u32_mod then rest else none

-- `str::parse::<u32>`: a leading `+` is accepted.
unfoldable pub parse_u32 : Text → Option ℕ
unfolding parse_digits
parse_u32 [] = none
parse_u32 (c ∷ s) = elim (c == b'+') [
  | true ↦ if is_empty s then none else parse_digits 0 s
  | false ↦ parse_digits 0 (c ∷ s)
]

-- Ten rounds print every `u32`.
show_digits : ℕ → ℕ → Text
show_digits zero n = []
show_digits (suc f) n =
    let rest = show_digits f (n / 10) in
    if ltb n 10 then (b'0' + n) ∷ [] else rest ++ (b'0' + n % 10) ∷ []

unfoldable pub show_u32 : ℕ → Text
unfolding show_digits
show_u32 n = show_digits 10 n

parse_digits-digit :
    (acc d : ℕ) (rest : Text)
    → d < 10
    → acc * 10 + d < u32_mod
    → parse_digits acc ((b'0' + d) ∷ rest) ≡ parse_digits (acc * 10 + d) rest
unfolding parse_digits
parse_digits-digit acc d rest h k = let e : b'0' + d - b'0' ≡ d = omega arith in rw e (ground arith)

parse_digits-show_digits :
    (f n : ℕ) (rest : Text)
    → n < 10 ^ f
    → n < u32_mod
    → parse_digits 0 (show_digits f n ++ rest) ≡ parse_digits n rest
unfolding parse_digits show_digits
parse_digits-show_digits zero n rest h k = let e : n ≡ 0 = omega arith in rw e
parse_digits-show_digits (suc f) n rest h k = elim (Bool-cases (ltb n 10)) [
  | inl small ↦ rw small (
      parse_digits-digit 0 n rest (ground arith) (omega arith)
      ∙ ap (λ m. parse_digits m rest) (omega arith))
  | inr big ↦
      let lead = show_digits f (n / 10) in
      let digit = b'0' + n % 10 in
      rw big (
        ap (parse_digits 0) (append_assoc lead (digit ∷ []) rest)
        ∙ parse_digits-show_digits f (n / 10) (digit ∷ rest) (omega (arith, pow-suc 10 f))
            (omega arith)
        ∙ parse_digits-digit (n / 10) (n % 10) rest (omega arith) (omega arith)
        ∙ ap (λ m. parse_digits m rest) (omega arith))
]

show_digits-NoSep : (f n : ℕ) → NoSep b'.' (show_digits f n)
unfolding show_digits
show_digits-NoSep zero n = tt
show_digits-NoSep (suc f) n = elim (Bool-cases (ltb n 10)) [
  | inl small ↦ rw small (ground arith, tt)
  | inr big ↦ rw big (
      NoSep-append b'.' (show_digits f (n / 10)) _ (show_digits-NoSep f (n / 10))
        (ground arith, tt))
]

pub show_u32-NoSep : (n : ℕ) → NoSep b'.' (show_u32 n)
unfolding show_u32
show_u32-NoSep n = show_digits-NoSep 10 n

show_digits-All : (f n : ℕ) → All (λ c. is_digit c ≡ true) (show_digits f n)
unfolding show_digits
show_digits-All zero n = tt
show_digits-All (suc f) n = elim (Bool-cases (ltb n 10)) [
  | inl small ↦ rw small (ground arith, tt)
  | inr big ↦ rw big (
      All-append (λ c. is_digit c ≡ true) (show_digits f (n / 10)) _ (show_digits-All f (n / 10))
        (ground arith, tt))
]

pub show_u32-All : (n : ℕ) → All (λ c. is_digit c ≡ true) (show_u32 n)
unfolding show_u32
show_u32-All n = show_digits-All 10 n

-- A text that begins with something else than a sign.
abbrev NoSign : Text → Type 0
NoSign [] = ⊥
NoSign (c ∷ s) = (c == b'+') ≡ false

NoSign-append : (a b : Text) → NoSign a → NoSign (a ++ b)
NoSign-append [] b h = absurd h
NoSign-append (c ∷ a) b h = h

show_digits-NoSign : (f n : ℕ) → n < 10 ^ f → 0 < f → NoSign (show_digits f n)
unfolding show_digits
show_digits-NoSign zero n h k = absurd (omega arith)
show_digits-NoSign (suc zero) n h k = let e : ltb n 10 ≡ true = ground arith in rw e (ground arith)
show_digits-NoSign (suc (suc f)) n h k = elim (Bool-cases (ltb n 10)) [
  | inl small ↦ rw small (ground arith)
  | inr big ↦ rw big (
      NoSign-append (show_digits (suc f) (n / 10)) _
        (show_digits-NoSign (suc f) (n / 10) (omega (arith, pow-suc 10 (suc f))) (omega arith)))
]

parse_u32-NoSign : (s : Text) → NoSign s → parse_u32 s ≡ parse_digits 0 s
unfolding parse_u32
parse_u32-NoSign [] h = absurd h
parse_u32-NoSign (c ∷ s) h = rw (h, parse_u32)

parse_u32-show_digits :
    (f n : ℕ) → n < 10 ^ f → 0 < f → n < u32_mod → parse_u32 (show_digits f n) ≡ some n
unfolding parse_digits
parse_u32-show_digits f n h k l =
    parse_u32-NoSign (show_digits f n) (show_digits-NoSign f n h k)
    ∙ sym (ap (parse_digits 0) (append-nil (show_digits f n)))
    ∙ parse_digits-show_digits f n [] h l

pub parse_u32-show_u32 : (n : ℕ) → n < u32_mod → parse_u32 (show_u32 n) ≡ some n
unfolding show_u32
parse_u32-show_u32 n h = parse_u32-show_digits 10 n (omega arith) (omega arith) h
