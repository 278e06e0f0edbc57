-- ===== src/Prelude/Tests.antt =====
-- Boolean tests on the native numbers and on lists of them, the conditional, and case lemmas.
use Prim.Native.Nat.{ℕ, ◌≤◌, ◌<◌, compare, Ordering}
use mathlib.Core.Path.{◌≡◌, refl}
use mathlib.Core.Logic.{◌↔◌, ◌⊎◌, inl, inr}
use mathlib.Core.Bool.{Bool, true, false, ◌&&◌}
use mathlib.Core.List.{List, [], ◌∷◌}
use mathlib.Core.Option.{Option, none, some}
use native.Mathlib.Omega.{arith}

abbrev pub ltb : ℕ → ℕ → Bool
ltb a b = elim (compare a b) [ Ordering.lt ↦ true | _ ↦ false ]

abbrev pub leb : ℕ → ℕ → Bool
leb a b = elim (compare a b) [ Ordering.gt ↦ false | _ ↦ true ]

infix 50 ◌==◌
abbrev pub ◌==◌ : ℕ → ℕ → Bool
a == b = elim (compare a b) [ Ordering.eq ↦ true | _ ↦ false ]

infix 1 if◌then◌else◌
abbrev pub if◌then◌else◌ {ℓ} : {A : Type ℓ} → Bool → A → A → A
if true then x else y = x
if false then x else y = y

pub ltb→lt : (a b : ℕ) → ltb a b ≡ true → a < b
ltb→lt a b h = ground arith

pub lt→ltb : (a b : ℕ) → a < b → ltb a b ≡ true
lt→ltb a b h = ground arith

pub leb→le : (a b : ℕ) → leb a b ≡ true → a ≤ b
leb→le a b h = ground arith

pub ==_iff : (a b : ℕ) → ((a == b) ≡ true) ↔ (a ≡ b)
==_iff a b = ground arith

-- Equality of byte strings.
infix 50 ◌=t◌
unfoldable pub ◌=t◌ : List ℕ → List ℕ → Bool
[] =t [] = true
[] =t (y ∷ ys) = false
(x ∷ xs) =t [] = false
(x ∷ xs) =t (y ∷ ys) = (x == y) && (xs =t ys)

pub =t→≡ : (s t : List ℕ) → (s =t t) ≡ true → s ≡ t
unfolding ◌=t◌
=t→≡ [] [] h = refl
=t→≡ [] (y ∷ ys) h = ground arith
=t→≡ (x ∷ xs) [] h = ground arith
=t→≡ (x ∷ xs) (y ∷ ys) h = ground (arith, =t→≡ xs ys)

pub =t_self : (s : List ℕ) → (s =t s) ≡ true
unfolding ◌=t◌
=t_self [] = refl
=t_self (x ∷ xs) = ground (arith, =t_self xs)

pub =t_iff : (s t : List ℕ) → ((s =t t) ≡ true) ↔ (s ≡ t)
=t_iff s t = (=t→≡ s t, λ e. ground (arith, =t_self s))

pub =t_sym : (s t : List ℕ) → (s =t t) ≡ (t =t s)
=t_sym s t = ground (arith, =t_iff s t, =t_iff t s)

-- To split on a computed value and keep the equation.
pub Bool-cases : (b : Bool) → (b ≡ true) ⊎ (b ≡ false)
Bool-cases true = inl refl
Bool-cases false = inr refl

pub Option-cases {ℓ} : {A : Type ℓ} (o : Option A) → (o ≡ none) ⊎ ((a : A) × (o ≡ some a))
Option-cases none = inl refl
Option-cases (some a) = inr (a, refl)
