-- ===== src/Verify/Order/Sorted.antt =====
-- The order in which badge records are tried.
use ans_sdk_rust.Prelude.{
  ◌≡◌, refl, true, false, List, Option, none, some, arith, Any, All, Bool, [], ◌∷◌, filter, All-map,
  sort_by-filter, sort_by-Any, sort_by-All, sort_by-Perm, sort_by-Sorted, Sorted, IsOrder,
}
use mathlib.Core.List.{Permᴰ}
use ans_sdk_rust.Types.Version.{Version, version_eq}
use ans_sdk_rust.Verify.Newest.{IsNewest, IsUpTo-of_not_lt}
use ans_sdk_rust.Verify.Env.{BadgeRecord}
use ans_sdk_rust.Verify.Order.{newer, newer_record, sort_newest}

newer_asym : (a b : Option Version) → newer a b ≡ true → newer b a ≡ false
newer_asym none b h = absurd (cc h)
newer_asym (some a) none h = refl
newer_asym (some a) (some b) h = ground arith

not_newer_trans :
    (a b c : Option Version) → newer b a ≡ false → newer c b ≡ false → newer c a ≡ false
not_newer_trans a b none h k = refl
not_newer_trans a none (some c) h k = absurd (cc k)
not_newer_trans none (some b) (some c) h k = absurd (cc h)
not_newer_trans (some a) (some b) (some c) h k = ground arith

newer_record-IsOrder : IsOrder newer_record
newer_record-IsOrder = record {
  asym = λ a b. newer_asym a.version b.version;
  not_trans = λ a b c. not_newer_trans a.version b.version c.version;
}

pub sort_newest-Any :
    (P : BadgeRecord → Type 0) (rs : List BadgeRecord) → Any P rs → Any P (sort_newest rs)
unfolding sort_newest
sort_newest-Any P rs h = sort_by-Any newer_record P rs h

pub sort_newest-All :
    (P : BadgeRecord → Type 0) (rs : List BadgeRecord) → All P rs → All P (sort_newest rs)
unfolding sort_newest
sort_newest-All P rs h = sort_by-All newer_record P rs h

-- Of two records of a list, the later one is of no newer version.
abbrev pub NewestFirst : List BadgeRecord → Type 0
NewestFirst [] = Unit
NewestFirst (r ∷ rs) = All (λ s. IsNewest r.version s.version) rs × NewestFirst rs

-- The records of one version, or those without a version.
abbrev pub same_version : Option Version → Option Version → Bool
same_version (some a) (some b) = version_eq a b
same_version none none = true
same_version a b = false

abbrev pub of_version : Option Version → List BadgeRecord → List BadgeRecord
of_version version rs = filter (λ r. same_version version r.version) rs

IsNewest-of_not_newer : (a b : Option Version) → newer b a ≡ false → IsNewest a b
IsNewest-of_not_newer (some a) (some b) h = IsUpTo-of_not_lt a b h
IsNewest-of_not_newer none (some b) h = absurd (cc h)
IsNewest-of_not_newer (some a) none h = tt
IsNewest-of_not_newer none none h = tt

NewestFirst-of_Sorted : (rs : List BadgeRecord) → Sorted newer_record rs → NewestFirst rs
NewestFirst-of_Sorted [] h = tt
NewestFirst-of_Sorted (r ∷ rs) (first, h) = (
  All-map _ _ rs (λ s. IsNewest-of_not_newer r.version s.version) first,
  NewestFirst-of_Sorted rs h,
)

same_version-level :
    (version a b : Option Version)
    → same_version version a ≡ true
    → same_version version b ≡ true
    → newer b a ≡ false
same_version-level none none none h k = refl
same_version-level none (some a) b h k = absurd (cc h)
same_version-level none none (some b) h k = absurd (cc k)
same_version-level (some v) none b h k = absurd (cc h)
same_version-level (some v) (some a) none h k = absurd (cc k)
same_version-level (some v) (some a) (some b) h k = ground (arith, h, k)

-- The records are tried from the newest version, by its major, minor and patch numbers, to the
-- oldest, those without a version last; every record of the DNS answer is tried as often as it was
-- given; and the records of one version, or without one, are tried in the order of the answer.
pub sort_newest_lem :
    (rs : List BadgeRecord)
    → NewestFirst (sort_newest rs)
      × (Permᴰ (sort_newest rs) rs
          × ((version : Option Version)
              → of_version version (sort_newest rs) ≡ of_version version rs))
unfolding sort_newest
sort_newest_lem rs = (
  NewestFirst-of_Sorted _ (sort_by-Sorted newer_record newer_record-IsOrder rs),
  (
    sort_by-Perm newer_record rs,
    λ version.
        sort_by-filter newer_record (λ r. same_version version r.version)
          (λ a b. same_version-level version a.version b.version) rs,
  ),
)
