-- ===== src/Pop/Replay.antt =====
-- crates/ans-verify/src/pop/replay.rs: `MemoryReplayCache`. The mutex makes each call one step.
-- Times are integers; the code's are 64 bits wide, and the end of a bucket fits them for every
-- expiry more than a bucket's width below 2^63. A hash map or a hash set is a list.
pub mod SingleUse
pub mod Bounded
pub mod Tracked
pub mod Reclaimed
use ans_sdk_rust.Prelude.{
  ℕ, ◌+◌, ◌*◌, ◌/◌, ◌≡◌, ◌↔◌, refl, Bool, true, false, ◌==◌, List, [], ◌∷◌, Option, none, some,
  if◌then◌else◌, leb, length, Eq, text_eq, lookup, insert, remove, contains, without, arith,
}
use ans_sdk_rust.Prelude.Int.{eq_ℤ_iff, eq_ℤ, ℤ, pos, negsuc, ◌+ℤ◌, leb_ℤ, ltb_ℤ}
use ans_sdk_rust.Text.{Text}
use ans_sdk_rust.Error.{Result, ok, err}
use ans_sdk_rust.Pop.Errors.{PopErrorKind, proof_stale, replay_cache_full}

instance abbrev pub int_eq : Eq ℤ
int_eq = record { beq = eq_ℤ; beq_iff = eq_ℤ_iff }

abbrev pub default_replay_max_entries : ℕ
default_replay_max_entries = 100000

-- `Inner`, less its clock, which is an argument.
pub record Inner : Type 0 where
  pub index : List (Text × ℤ)
  pub buckets : List (ℤ × List Text)
  pub max_entries : ℕ

abbrev pub new : ℕ → Inner
new max_entries = record {
  index = [];
  buckets = [];
  max_entries = if max_entries == 0 then default_replay_max_entries else max_entries;
}

-- `exp.div_euclid(5)`
unfoldable pub bucket_of : ℤ → ℤ
bucket_of (pos n) = pos (n / 5)
bucket_of (negsuc n) = negsuc (n / 5)

-- `(id + 1) * 5`
abbrev times_five : ℤ → ℤ
times_five (pos n) = pos (n * 5)
times_five (negsuc n) = negsuc (n * 5 + 4)

unfoldable pub bucket_end : ℤ → ℤ
unfolding ◌+ℤ◌
bucket_end id = times_five (id +ℤ pos 1)

abbrev keys_of : Option (List Text) → List Text
keys_of none = []
keys_of (some keys) = keys

abbrev pub bucket : ℤ → List (ℤ × List Text) → List Text
bucket id buckets = keys_of (lookup id buckets)

abbrev pub add_key : Text → List Text → List Text
add_key key keys = if contains keys key then keys else key ∷ keys

unfoldable pub add : Text → ℤ → Inner → Inner
unfolding bucket_of
add key exp s =
    let id = bucket_of exp in
    record s {
      index = insert key exp s.index;
      buckets = insert id (add_key key (bucket id s.buckets)) s.buckets;
    }

abbrev pub no_keys : List Text → Bool
no_keys [] = true
no_keys (k ∷ ks) = false

abbrev pub drop_key : ℤ → Text → Option (List Text) → List (ℤ × List Text) → List (ℤ × List Text)
drop_key id key none buckets = buckets
drop_key id key (some keys) buckets =
    let left = without (key ∷ []) keys in
    if no_keys left then remove id buckets else insert id left buckets

unfoldable pub remove_entry : Text → ℤ → Inner → Inner
unfolding bucket_of
remove_entry key exp s =
    let id = bucket_of exp in
    record s {
      index = remove key s.index;
      buckets = drop_key id key (lookup id s.buckets) s.buckets;
    }

-- The generations that have run out.
unfoldable pub stale_ids : ℤ → List (ℤ × List Text) → List ℤ
unfolding bucket_end
stale_ids now [] = []
stale_ids now ((id, keys) ∷ rest) =
    let later = stale_ids now rest in if leb_ℤ (bucket_end id) now then id ∷ later else later

-- `index.get(key).map(bucket_of) == Some(id)`
abbrev in_bucket : ℤ → Option ℤ → Bool
in_bucket id none = false
in_bucket id (some exp) = eq_ℤ (bucket_of exp) id

unfoldable pub evict_keys : ℤ → List Text → List (Text × ℤ) → List (Text × ℤ)
unfolding bucket_of
evict_keys id [] index = index
evict_keys id (key ∷ keys) index =
    evict_keys id keys (if in_bucket id (lookup key index) then remove key index else index)

abbrev evict_bucket : ℤ → Option (List Text) → Inner → Inner
evict_bucket id none s = s
evict_bucket id (some keys) s = record s {
  buckets = remove id s.buckets;
  index = evict_keys id keys s.index;
}

unfoldable pub evict_ids : List ℤ → Inner → Inner
unfolding evict_keys
evict_ids [] s = s
evict_ids (id ∷ ids) s = evict_ids ids (evict_bucket id (lookup id s.buckets) s)

unfoldable pub evict : ℤ → Inner → Inner
unfolding stale_ids evict_ids
evict now s = evict_ids (stale_ids now s.buckets) s

abbrev store_new : Text → ℤ → Inner → Result PopErrorKind Bool × Inner
store_new key exp s =
    let added = add key exp s in
    if leb s.max_entries (length s.index) then (err replay_cache_full, s) else (ok false, added)

abbrev check_seen : Text → ℤ → ℤ → Option ℤ → Inner → Result PopErrorKind Bool × Inner
check_seen key exp now none s = store_new key exp s
check_seen key exp now (some existing) s =
    let renewed = store_new key exp (remove_entry key existing s) in
    if ltb_ℤ now existing then (ok true, s) else renewed

-- `check_and_store`, at a time: whether the key was seen.
unfoldable pub check_and_store : ℤ → Text → ℤ → Inner → Result PopErrorKind Bool × Inner
unfolding evict add remove_entry
check_and_store now key exp s =
    let s' = evict now s in
    let answer = check_seen key exp now (lookup key s'.index) s' in
    if leb_ℤ exp now then (err proof_stale, s') else answer
