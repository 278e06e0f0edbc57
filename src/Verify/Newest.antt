-- ===== src/Verify/Newest.antt =====
-- The order of versions by their three numbers, by which crates/ans-verify/src/verify.rs and dns.rs
-- sort badge records.
use ans_sdk_rust.Prelude.{◌≡◌, ◌<◌, ◌⊎◌, inl, false, true, arith, Option, none, some}
use ans_sdk_rust.Types.Version.{Version, version_lt}

-- By the first number that differs.
abbrev pub IsOlder : Version → Version → Type 0
IsOlder a b =
    (a.major < b.major)
    ⊎ ((a.major ≡ b.major) × ((a.minor < b.minor) ⊎ ((a.minor ≡ b.minor) × (a.patch < b.patch))))

abbrev pub IsUpTo : Version → Version → Type 0
IsUpTo a b = IsOlder a b ⊎ (a ≡ b)

pub IsOlder-of_lt : (a b : Version) → version_lt a b ≡ true → IsOlder a b
IsOlder-of_lt a b h = ground arith

pub IsUpTo-of_not_lt : (a b : Version) → version_lt a b ≡ false → IsUpTo b a
IsUpTo-of_not_lt a b h = ground arith

-- Another version is not newer; none is below every version.
abbrev pub IsNewest : Option Version → Option Version → Type 0
IsNewest (some a) (some b) = IsUpTo b a
IsNewest none (some b) = ⊥
IsNewest a none = Unit

-- A record without a version goes before those with one, and a newer version before an older one.
abbrev pub IsPreferred : Option Version → Option Version → Type 0
IsPreferred none (some b) = Unit
IsPreferred (some a) (some b) = IsOlder b a
IsPreferred a none = ⊥

-- The other is not preferred.
abbrev pub IsFirst : Option Version → Option Version → Type 0
IsFirst none b = Unit
IsFirst (some a) (some b) = IsUpTo b a
IsFirst (some a) none = ⊥

pub IsFirst-of_IsPreferred : (a b : Option Version) → IsPreferred a b → IsFirst a b
IsFirst-of_IsPreferred none (some b) h = tt
IsFirst-of_IsPreferred (some a) (some b) h = inl h
IsFirst-of_IsPreferred none none h = absurd h
IsFirst-of_IsPreferred (some a) none h = absurd h

IsUpTo-trans : (a b c : Version) → IsUpTo a b → IsUpTo b c → IsUpTo a c
IsUpTo-trans a b c h k = ground (arith, h, k)

pub IsFirst-trans : (a b c : Option Version) → IsFirst a b → IsFirst b c → IsFirst a c
IsFirst-trans none b c h k = tt
IsFirst-trans (some a) none c h k = absurd h
IsFirst-trans (some a) (some b) none h k = absurd k
IsFirst-trans (some a) (some b) (some c) h k = IsUpTo-trans c b a k h
