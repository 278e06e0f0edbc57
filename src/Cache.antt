-- ===== src/Cache.antt =====
-- crates/ans-verify/src/cache.rs: the badge cache with its index of versions by host.
-- The store under it is the crate moka: a record of operations (`Moka`) and the laws documented
-- of them (`MokaLaws`). Instants and durations are numbers; `now` is the clock when a call runs.
pub mod Versions
pub mod Invalidation
pub mod Holds
use ans_sdk_rust.Prelude.{
  ℕ, ◌+◌, ◌-◌, ◌*◌, ◌/◌, ◌≡◌, ◌≢◌, ◌⊎◌, Bool, true, false, List, [], ◌∷◌, ◌++◌, Option, none, some,
  ltb, if◌then◌else◌, Eq, text_eq, lookup, insert, remove, contains, without, ◌&&◌, ◌=t◌, ◌↔◌,
  arith, =t_iff,
}
use ans_sdk_rust.Text.{Text, to_lowercase}
use ans_sdk_rust.Types.Badge.{Badge}
use ans_sdk_rust.Types.Fqdn.{Fqdn}
use ans_sdk_rust.Types.Version.{Version, version_eq, version_eq_instance}

pub record CacheConfig : Type 0 where
  pub max_entries : ℕ
  pub default_ttl : ℕ
  pub refresh_threshold : ℕ
  pub hard_ttl : ℕ

-- Durations in seconds.
abbrev pub default_config : CacheConfig
default_config = record {
  max_entries = 1000;
  default_ttl = 300;
  refresh_threshold = 60;
  hard_ttl = 1200;
}

abbrev pub with_ttl : ℕ → CacheConfig
with_ttl ttl = record default_config {
  default_ttl = ttl;
  refresh_threshold = ttl / 5;
  hard_ttl = ttl * 4;
}

pub data CacheKey : Type 0 where
  fqdn_version_key : Text → Version → CacheKey
  url_key : Text → CacheKey

-- `CacheKey::fqdn_version`
abbrev pub key_of : Fqdn → Version → CacheKey
key_of fqdn version = fqdn_version_key (to_lowercase fqdn.name) version

pub record CachedBadge : Type 0 where
  pub badge : Badge
  pub fetched_at : ℕ
  pub ttl : ℕ

abbrev pub elapsed : ℕ → CachedBadge → ℕ
elapsed now cached = now - cached.fetched_at

abbrev pub is_valid : ℕ → CachedBadge → Bool
is_valid now cached = ltb (elapsed now cached) cached.ttl

abbrev pub remaining_ttl : ℕ → CachedBadge → ℕ
remaining_ttl now cached = cached.ttl - elapsed now cached

abbrev pub should_refresh : ℕ → CachedBadge → ℕ → Bool
should_refresh now cached threshold = ltb (remaining_ttl now cached) threshold

-- `moka::future::Cache`: a store that may drop an entry at any insertion, and by the clock.
pub record Moka : Type 1 where
  pub Store : Type 0
  pub build : ℕ → ℕ → Store
  pub find : ℕ → CacheKey → Store → Option CachedBadge
  pub store : ℕ → CacheKey → CachedBadge → Store → Store
  pub drop : CacheKey → Store → Store
  pub drop_all : Store → Store

pub record MokaLaws (m : Moka) : Type 0 where
  pub find-build : (t cap ttl : ℕ) (k : CacheKey) → m.find t k (m.build cap ttl) ≡ none
  pub find-store :
      (t u : ℕ) (k j : CacheKey) (v w : CachedBadge) (s : m.Store)
      → m.find t j (m.store u k v s) ≡ some w
      → ((j ≡ k) × (w ≡ v)) ⊎ ((j ≢ k) × (m.find t j s ≡ some w))
  pub find-drop :
      (t : ℕ) (k j : CacheKey) (w : CachedBadge) (s : m.Store)
      → m.find t j (m.drop k s) ≡ some w
      → (j ≢ k) × (m.find t j s ≡ some w)
  pub find-drop_all : (t : ℕ) (k : CacheKey) (s : m.Store) → m.find t k (m.drop_all s) ≡ none

pub record BadgeCache (m : Moka) : Type 0 where
  pub cache : m.Store
  pub config : CacheConfig
  pub version_index : List (Text × List Version)

abbrev max_of : ℕ → ℕ → ℕ
max_of a b = if ltb a b then b else a

abbrev pub or_default : Option (List Version) → List Version
or_default none = []
or_default (some vs) = vs

abbrev filter_valid : ℕ → Option CachedBadge → Option CachedBadge
filter_valid now none = none
filter_valid now (some c) = if is_valid now c then some c else none

abbrev add_version : Version → List Version → List Version
add_version v vs = if contains vs v then vs else vs ++ v ∷ []

module _ (m : Moka) where
  unfoldable pub new : CacheConfig → BadgeCache m
  new config =
      let hard = max_of config.hard_ttl config.default_ttl in
      record {
        cache = m.build config.max_entries hard;
        config = record config { hard_ttl = hard };
        version_index = [];
      }

  unfoldable pub get_allow_stale : ℕ → CacheKey → BadgeCache m → Option CachedBadge
  get_allow_stale now key c = m.find now key c.cache

  unfoldable pub get : ℕ → CacheKey → BadgeCache m → Option CachedBadge
  get now key c = filter_valid now (m.find now key c.cache)

  unfoldable pub insert_with_ttl : ℕ → CacheKey → Badge → ℕ → BadgeCache m → BadgeCache m
  insert_with_ttl now (fqdn_version_key fqdn version) badge ttl c =
      let host = to_lowercase fqdn in
      let versions = or_default (lookup host c.version_index) in
      record c {
        version_index = insert host (add_version version versions) c.version_index;
        cache =
            m.store now (fqdn_version_key fqdn version)
              (record { badge = badge; fetched_at = now; ttl = ttl }) c.cache;
      }
  insert_with_ttl now (url_key url) badge ttl c = record c {
    cache =
        m.store now (url_key url) (record { badge = badge; fetched_at = now; ttl = ttl }) c.cache;
  }

  abbrev pub get_by_fqdn_version : ℕ → Fqdn → Version → BadgeCache m → Option CachedBadge
  get_by_fqdn_version now fqdn version c = get now (key_of fqdn version) c

  abbrev pub get_by_fqdn_version_allow_stale :
      ℕ → Fqdn → Version → BadgeCache m → Option CachedBadge
  get_by_fqdn_version_allow_stale now fqdn version c = get_allow_stale now (key_of fqdn version) c

  -- `insert`
  unfoldable pub insert_badge : ℕ → CacheKey → Badge → BadgeCache m → BadgeCache m
  unfolding insert_with_ttl
  insert_badge now key badge c = insert_with_ttl now key badge c.config.default_ttl c

  unfoldable pub invalidate : CacheKey → BadgeCache m → BadgeCache m
  invalidate key c = record c { cache = m.drop key c.cache }

  unfoldable pub clear : BadgeCache m → BadgeCache m
  clear c = record c { cache = m.drop_all c.cache; version_index = [] }

  unfoldable pub insert_for_fqdn_version : ℕ → Fqdn → Version → Badge → BadgeCache m → BadgeCache m
  unfolding insert_with_ttl
  insert_for_fqdn_version now fqdn version badge c =
      insert_with_ttl now (key_of fqdn version) badge c.config.default_ttl c

  -- The loop of `collect_for_fqdn`.
  collect : ℕ → Fqdn → Bool → List Version → BadgeCache m → List CachedBadge
  collect now fqdn allow_stale [] c = []
  collect now fqdn allow_stale (v ∷ vs) c =
      let rest = collect now fqdn allow_stale vs c in
      let key = key_of fqdn v in
      elim (if allow_stale then get_allow_stale now key c else get now key c) [
        | none ↦ rest
        | some cached ↦ cached ∷ rest
      ]

  unfoldable pub collect_for_fqdn : ℕ → Fqdn → Bool → BadgeCache m → List CachedBadge
  unfolding collect get get_allow_stale
  collect_for_fqdn now fqdn allow_stale c = elim (lookup (to_lowercase fqdn.name) c.version_index) [
    | none ↦ []
    | some versions ↦ collect now fqdn allow_stale versions c
  ]

  abbrev pub get_all_for_fqdn : ℕ → Fqdn → BadgeCache m → List CachedBadge
  get_all_for_fqdn now fqdn c = collect_for_fqdn now fqdn false c

  abbrev pub get_all_for_fqdn_allow_stale : ℕ → Fqdn → BadgeCache m → List CachedBadge
  get_all_for_fqdn_allow_stale now fqdn c = collect_for_fqdn now fqdn true c

  -- The loops that drop each listed version of a host.
  unfoldable pub drop_versions : Fqdn → List Version → m.Store → m.Store
  drop_versions fqdn [] s = s
  drop_versions fqdn (v ∷ vs) s = drop_versions fqdn vs (m.drop (key_of fqdn v) s)

  unfoldable pub invalidate_fqdn : Fqdn → BadgeCache m → BadgeCache m
  unfolding drop_versions
  invalidate_fqdn fqdn c =
      let host = to_lowercase fqdn.name in
      record c {
        version_index = remove host c.version_index;
        cache = drop_versions fqdn (or_default (lookup host c.version_index)) c.cache;
      }

  unfoldable pub set_version_index : Fqdn → List Version → BadgeCache m → BadgeCache m
  unfolding drop_versions
  set_version_index fqdn versions c =
      let host = to_lowercase fqdn.name in
      record c {
        version_index = insert host versions c.version_index;
        cache =
            drop_versions fqdn (without versions (or_default (lookup host c.version_index)))
              c.cache;
      }
