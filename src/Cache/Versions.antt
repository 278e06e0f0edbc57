-- ===== src/Cache/Versions.antt =====
-- The list of versions of a host.
use ans_sdk_rust.Prelude.{
  ◌≡◌, inl, inr, true, false, List, [], ◌∷◌, ◌++◌, text_eq, contains, without, Bool-cases, arith,
}
use ans_sdk_rust.Types.Version.{Version, version_eq_iff, version_eq_instance}
use ans_sdk_rust.Cache.{add_version}

contains-append_self : (xs : List Version) (v : Version) → contains (xs ++ v ∷ []) v ≡ true
unfolding contains
contains-append_self [] v = ground (arith, version_eq_iff v v)
contains-append_self (x ∷ xs) v = ground (arith, contains-append_self xs v)

contains-append_left :
    (xs : List Version) (v w : Version) → contains xs w ≡ true → contains (xs ++ v ∷ []) w ≡ true
unfolding contains
contains-append_left [] v w h = cc
contains-append_left (x ∷ xs) v w h = ground (arith, contains-append_left xs v w)

pub add_version_self : (v : Version) (vs : List Version) → contains (add_version v vs) v ≡ true
add_version_self v vs = elim (Bool-cases (contains vs v)) [
  | inl old ↦ rw old old
  | inr fresh ↦ rw fresh (contains-append_self vs v)
]

pub add_version_mono :
    (v w : Version) (vs : List Version)
    → contains vs w ≡ true
    → contains (add_version v vs) w ≡ true
add_version_mono v w vs h = elim (Bool-cases (contains vs v)) [
  | inl old ↦ rw old h
  | inr fresh ↦ rw fresh (contains-append_left vs v w h)
]

pub contains-without :
    (gone vs : List Version) (v : Version)
    → contains vs v ≡ true
    → contains gone v ≡ false
    → contains (without gone vs) v ≡ true
unfolding contains without
contains-without gone [] v h k = cc
contains-without gone (x ∷ xs) v h k =
    ground (arith, version_eq_iff x v, contains-without gone xs v)
