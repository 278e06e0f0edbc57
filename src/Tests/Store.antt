-- ===== src/Tests/Store.antt =====
-- A store that forgets nothing meets the laws of `Moka`.
use ans_sdk_rust.Prelude.{
  ◌≡◌, refl, inl, inr, ◌≢◌, ◌⊎◌, ◌↔◌, Bool, true, false, List, [], some, arith, Bool-cases, ◌&&◌,
  ◌=t◌, =t_iff, Eq, lookup, insert, remove, lookup-insert, lookup-remove,
}
use ans_sdk_rust.Types.Version.{version_eq, version_eq_iff}
use ans_sdk_rust.Cache.{CacheKey, fqdn_version_key, url_key, CachedBadge, Moka, MokaLaws}

unfoldable pub key_eq : CacheKey → CacheKey → Bool
key_eq (fqdn_version_key f v) (fqdn_version_key g w) = (f =t g) && version_eq v w
key_eq (url_key s) (url_key t) = s =t t
key_eq _ _ = false

pub key_eq_iff : (a b : CacheKey) → (key_eq a b ≡ true) ↔ (a ≡ b)
unfolding key_eq
key_eq_iff (fqdn_version_key f v) (fqdn_version_key g w) =
    ground (arith, =t_iff f g, version_eq_iff v w)
key_eq_iff (url_key s) (url_key t) = ground (arith, =t_iff s t)
key_eq_iff (fqdn_version_key f v) (url_key t) = ground arith
key_eq_iff (url_key s) (fqdn_version_key g w) = ground arith

instance abbrev pub key_eq_instance : Eq CacheKey
key_eq_instance = record { beq = key_eq; beq_iff = key_eq_iff }

abbrev pub list_store : Moka
list_store = record {
  Store = List (CacheKey × CachedBadge);
  build = λ cap ttl. [];
  find = λ t k s. lookup k s;
  store = λ t k v s. insert k v s;
  drop = λ k s. remove k s;
  drop_all = λ s. [];
}

find-store :
    (k j : CacheKey) (v w : CachedBadge) (s : List (CacheKey × CachedBadge))
    → lookup j (insert k v s) ≡ some w
    → ((j ≡ k) × (w ≡ v)) ⊎ ((j ≢ k) × (lookup j s ≡ some w))
find-store k j v w s e = elim (Bool-cases (key_eq k j)) [
  | inl same ↦ inl (ground (arith, key_eq_iff k j), ground (arith, lookup-insert k j v s))
  | inr other ↦ inr (ground (arith, key_eq_iff k j), ground (arith, lookup-insert k j v s))
]

find-drop :
    (k j : CacheKey) (w : CachedBadge) (s : List (CacheKey × CachedBadge))
    → lookup j (remove k s) ≡ some w
    → (j ≢ k) × (lookup j s ≡ some w)
find-drop k j w s e = elim (Bool-cases (key_eq k j)) [
  | inl same ↦ absurd (ground (arith, lookup-remove k j s))
  | inr other ↦ (ground (arith, key_eq_iff k j), ground (arith, lookup-remove k j s))
]

pub list_store-laws : MokaLaws list_store
unfolding lookup
list_store-laws = record {
  find-build = λ t cap ttl k. refl;
  find-store = λ t u k j v w s e. find-store k j v w s e;
  find-drop = λ t k j w s e. find-drop k j w s e;
  find-drop_all = λ t k s. refl;
}
