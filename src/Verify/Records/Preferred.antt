-- ===== src/Verify/Records/Preferred.antt =====
-- Which record is preferred.
use ans_sdk_rust.Prelude.{
  ◌≡◌, refl, sym, ap, ◌∙◌, true, false, inl, inr, Bool-cases, List, [], ◌∷◌, ◌++◌, Option, none,
  some, if◌then◌else◌, All, All-map, All-append, sort_by, insert_by,
}
use mathlib.Core.Path.{subst}
use ans_sdk_rust.Types.Version.{Version}
use ans_sdk_rust.Verify.Env.{BadgeRecord}
use ans_sdk_rust.Verify.Newest.{
  IsPreferred, IsFirst, IsFirst-of_IsPreferred, IsFirst-trans, IsOlder-of_lt, IsUpTo-of_not_lt,
}
use ans_sdk_rust.Verify.Records.{precedes, head_of, preferred_of, before}

IsPreferred-of_before : (a b : Option Version) → before a b ≡ true → IsPreferred a b
IsPreferred-of_before none none h = absurd (cc h)
IsPreferred-of_before none (some b) h = tt
IsPreferred-of_before (some a) none h = absurd (cc h)
IsPreferred-of_before (some a) (some b) h = IsOlder-of_lt b a h

IsFirst-of_not_before : (a b : Option Version) → before b a ≡ false → IsFirst a b
IsFirst-of_not_before none b h = tt
IsFirst-of_not_before (some a) none h = absurd (cc h)
IsFirst-of_not_before (some a) (some b) h = IsUpTo-of_not_lt a b h

-- The answer around a record: those before it are less preferred, those after it not more.
pub record Preferred (records : List BadgeRecord) : Type 0 where
  pub best : BadgeRecord
  pub earlier : List BadgeRecord
  pub later : List BadgeRecord
  pub is : preferred_of records ≡ some best
  pub split : records ≡ earlier ++ (best ∷ later)
  pub above : All (λ s. IsPreferred best.version s.version) earlier
  pub first : All (λ s. IsFirst best.version s.version) later

abbrev choose : BadgeRecord → Option BadgeRecord → BadgeRecord
choose x none = x
choose x (some r) = if precedes r x then r else x

-- The first record after sorting, one record at a time.
preferred_of-cons :
    (x : BadgeRecord) (xs : List BadgeRecord)
    → preferred_of (x ∷ xs) ≡ some (choose x (preferred_of xs))
unfolding preferred_of
preferred_of-cons x xs = by_sorted (sort_by precedes xs)
  where
    by_sorted :
        (sorted : List BadgeRecord)
        → head_of (insert_by precedes x sorted) ≡ some (choose x (head_of sorted))
    by_sorted [] = refl
    by_sorted (r ∷ rest) = elim (Bool-cases (precedes r x)) [
      | inl kept ↦ rw kept refl
      | inr new ↦ rw new refl
    ]

add_record : (x : BadgeRecord) (xs : List BadgeRecord) → Preferred xs → Preferred (x ∷ xs)
add_record x xs p = elim (Bool-cases (precedes p.best x)) [
  | inl kept ↦ record {
    best = p.best;
    earlier = x ∷ p.earlier;
    later = p.later;
    is = preferred_of-cons x xs ∙ rw (p.is, kept) refl;
    split = ap (λ rs. x ∷ rs) p.split;
    above = (IsPreferred-of_before p.best.version x.version kept, p.above);
    first = p.first;
  }
  | inr new ↦
      let best : IsFirst x.version p.best.version =
        IsFirst-of_not_before x.version p.best.version new in
      let below = λ (s : BadgeRecord) (h : IsFirst p.best.version s.version).
        IsFirst-trans x.version p.best.version s.version best h in
      let earlier =
        All-map _ (λ s. IsFirst x.version s.version) p.earlier
          (λ s h. below s (IsFirst-of_IsPreferred p.best.version s.version h)) p.above in
      let later = All-map _ (λ s. IsFirst x.version s.version) p.later below p.first in
      record {
        best = x;
        earlier = [];
        later = xs;
        is = preferred_of-cons x xs ∙ rw (p.is, new) refl;
        split = refl;
        above = tt;
        first =
            subst (λ rs. All (λ s. IsFirst x.version s.version) rs) (sym p.split)
              (All-append _ p.earlier (p.best ∷ p.later) earlier (best, later));
      }
]

-- For every answer with a record one is preferred: one of the answer, without a version if some
-- record has none, and of the newest version, by its major, minor and patch numbers, if all have one;
-- of several such records it is the first of the answer.
pub preferred_of_lem : (x : BadgeRecord) (xs : List BadgeRecord) → Preferred (x ∷ xs)
unfolding preferred_of
preferred_of_lem x [] = record {
  best = x;
  earlier = [];
  later = [];
  is = refl;
  split = refl;
  above = tt;
  first = tt;
}
preferred_of_lem x (y ∷ ys) = add_record x (y ∷ ys) (preferred_of_lem y ys)
