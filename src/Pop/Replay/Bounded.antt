-- ===== src/Pop/Replay/Bounded.antt =====
-- That the cache never holds more entries than its ceiling.
use ans_sdk_rust.Prelude.{
  ℕ, ◌≤◌, ◌≡◌, refl, inl, inr, List, [], ◌∷◌, Option, none, some, length, leb, lookup, remove,
  length-insert-le, length-remove-le, Bool-cases, arith, text_eq,
}
use ans_sdk_rust.Prelude.Int.{ℤ, leb_ℤ, ltb_ℤ}
use ans_sdk_rust.Text.{Text}
use ans_sdk_rust.Pop.Replay.{
  Inner, int_eq, new, in_bucket, stale_ids, evict_keys, evict_bucket, evict_ids, evict, add,
  remove_entry, store_new, check_seen, check_and_store,
}
use ans_sdk_rust.Pop.Replay.SingleUse.{Call, check_call, evict_call, run_call, run_calls}

-- The second state has the same ceiling, and no more entries.
abbrev Shrinks : Inner → Inner → Type 0
Shrinks s t = (length t.index ≤ length s.index) × (t.max_entries ≡ s.max_entries)

abbrev Fits : ℕ → Inner → Type 0
Fits cap s = (length s.index ≤ cap) × (s.max_entries ≡ cap)

evict_keys-length :
    (id : ℤ) (keys : List Text) (index : List (Text × ℤ))
    → length (evict_keys id keys index) ≤ length index
unfolding evict_keys
evict_keys-length id [] index = omega arith
evict_keys-length id (k ∷ ks) index = elim (Bool-cases (in_bucket id (lookup k index))) [
  | inl gone ↦
      rw gone (omega (arith, evict_keys-length id ks (remove k index), length-remove-le k index))
  | inr kept ↦ rw kept (evict_keys-length id ks index)
]

evict_bucket-Shrinks :
    (id : ℤ) (found : Option (List Text)) (s : Inner) → Shrinks s (evict_bucket id found s)
evict_bucket-Shrinks id none s = (omega arith, refl)
evict_bucket-Shrinks id (some keys) s = (evict_keys-length id keys s.index, refl)

evict_ids-Shrinks : (ids : List ℤ) (s : Inner) → Shrinks s (evict_ids ids s)
unfolding evict_ids
evict_ids-Shrinks [] s = (omega arith, refl)
evict_ids-Shrinks (id ∷ ids) s =
    let (a, b) = evict_bucket-Shrinks id (lookup id s.buckets) s in
    let (d, e) = evict_ids-Shrinks ids (evict_bucket id (lookup id s.buckets) s) in
    (omega (arith, a, d), omega (arith, b, e))

evict-Shrinks : (now : ℤ) (s : Inner) → Shrinks s (evict now s)
unfolding evict
evict-Shrinks now s = evict_ids-Shrinks (stale_ids now s.buckets) s

evict-Fits : (cap : ℕ) (now : ℤ) (s : Inner) → Fits cap s → Fits cap (evict now s)
evict-Fits cap now s h = ground (arith, h, evict-Shrinks now s)

store_new-Fits :
    (cap : ℕ) (key : Text) (exp : ℤ) (s : Inner) → Fits cap s → Fits cap (store_new key exp s).1
unfolding add
store_new-Fits cap key exp s h = elim (Bool-cases (leb s.max_entries (length s.index))) [
  | inl full ↦ rw full h
  | inr room ↦ rw room (ground (arith, room, h, length-insert-le key exp s.index))
]

check_seen-Fits :
    (cap : ℕ) (key : Text) (exp now : ℤ) (seen : Option ℤ) (s : Inner)
    → Fits cap s
    → Fits cap (check_seen key exp now seen s).1
unfolding remove_entry
check_seen-Fits cap key exp now none s h = store_new-Fits cap key exp s h
check_seen-Fits cap key exp now (some existing) s h = elim (Bool-cases (ltb_ℤ now existing)) [
  | inl live ↦ rw live h
  | inr expired ↦ rw expired (
      store_new-Fits cap key exp (remove_entry key existing s)
        (ground (arith, h, length-remove-le key s.index)))
]

check_and_store-Fits :
    (cap : ℕ) (now : ℤ) (key : Text) (exp : ℤ) (s : Inner)
    → Fits cap s
    → Fits cap (check_and_store now key exp s).1
unfolding check_and_store
check_and_store-Fits cap now key exp s h =
    let kept : Fits cap (evict now s) = evict-Fits cap now s h in
    elim (Bool-cases (leb_ℤ exp now)) [
      | inl late ↦ rw late kept
      | inr timely ↦
          rw timely
            (check_seen-Fits cap key exp now (lookup key (evict now s).index) (evict now s) kept)
    ]

run_calls-Fits :
    (cap : ℕ) (calls : List Call) (s : Inner) → Fits cap s → Fits cap (run_calls calls s)
unfolding run_calls run_call
run_calls-Fits cap [] s h = h
run_calls-Fits cap (check_call now key exp ∷ calls) s h =
    run_calls-Fits cap calls _ (check_and_store-Fits cap now key exp s h)
run_calls-Fits cap (evict_call now ∷ calls) s h =
    run_calls-Fits cap calls _ (evict-Fits cap now s h)

-- Whatever calls are made, a cache holds at most as many entries as it was built for; a cache that
-- was built for 0 holds at most 100,000.
pub bounded :
    (max_entries : ℕ) (calls : List Call)
    → length (run_calls calls (new max_entries)).index ≤ (new max_entries).max_entries
bounded max_entries calls =
    (run_calls-Fits (new max_entries).max_entries calls (new max_entries) (ground arith, refl)).0
