-- ===== src/Results.antt =====
-- Chains of fallible steps: the `?` operator, `ok_or` and early returns, and their inversion.
use ans_sdk_rust.Prelude.{
  ◌≡◌, refl, ap, Bool, true, false, not, List, Option, none, some, if◌then◌else◌, arith, ◌=t◌, =t→≡,
  ◌⊎◌, inl, inr, ℕ,
}
use ans_sdk_rust.Error.{Result, ok, err, ◌>>=◌}

module _ {ℓ κ} {E : Type ℓ} {A : Type κ} where
  abbrev pub ok_or : E → Option A → Result E A
  ok_or e none = err e
  ok_or e (some a) = ok a

  pub ok_or-ok : (e : E) (r : Option A) (a : A) → ok_or e r ≡ ok a → r ≡ some a
  ok_or-ok e none a h = absurd (cc h)
  ok_or-ok e (some b) a h = cc h

module _ {ℓ κ} {E : Type ℓ} {A : Type κ} where
  abbrev value_or : A → Result E A → A
  value_or d (ok a) = a
  value_or d (err e) = d

  -- Where many hypotheses are at hand.
  pub ok_injective : (a b : A) → ◌≡◌ {A = Result E A} (ok a) (ok b) → a ≡ b
  ok_injective a b h = ap (value_or a) h

-- `map_err`
abbrev pub map_err {ℓ κ μ} :
    {E : Type ℓ} {F : Type κ} {A : Type μ} → (E → F) → Result E A → Result F A
map_err f (ok a) = ok a
map_err f (err e) = err (f e)

pub map_err-ok {ℓ κ μ} :
    {E : Type ℓ} {F : Type κ} {A : Type μ} (f : E → F) (r : Result E A) (a : A)
    → map_err f r ≡ ok a
    → r ≡ ok a
map_err-ok f (ok b) a h = cc h
map_err-ok f (err e) a h = absurd (cc h)

-- `if fails { return Err(…) }`
abbrev pub fail_if {ℓ} : {E : Type ℓ} → Bool → E → Result E (Unit {0})
fail_if fails e = if fails then err e else ok tt

pub fail_if-ok {ℓ} :
    {E : Type ℓ} (fails : Bool) (e : E) (u : Unit {0}) → fail_if fails e ≡ ok u → fails ≡ false
fail_if-ok true e u h = absurd (cc h)
fail_if-ok false e u h = refl

pub bind-ok {ℓ κ μ} :
    {E : Type ℓ} {A : Type κ} {B : Type μ} (r : Result E A) (f : A → Result E B) (b : B)
    → (r >>= f) ≡ ok b
    → (a : A) × ((r ≡ ok a) × (f a ≡ ok b))
bind-ok (ok a) f b h = (a, (refl, h))
bind-ok (err e) f b h = absurd (cc h)

pub Result-cases {ℓ κ} :
    {E : Type ℓ} {A : Type κ} (r : Result E A) → ((e : E) × (r ≡ err e)) ⊎ ((a : A) × (r ≡ ok a))
Result-cases (err e) = inl (e, refl)
Result-cases (ok a) = inr (a, refl)

pub same_text : (s t : List ℕ) → not (s =t t) ≡ false → s ≡ t
same_text s t h = =t→≡ s t (ground (arith, h))
