-- ===== src/Pop/Replay/Reclaimed.antt =====
-- That an eviction reaches every entry whose generation has run out.
use ans_sdk_rust.Prelude.{
  ℕ, ◌≡◌, inl, inr, true, false, List, [], ◌∷◌, Option, none, some, length, leb, lookup, Bool-cases,
  arith, text_eq,
}
use ans_sdk_rust.Prelude.Int.{ℤ, pos, ◌+ℤ◌, leb_ℤ, ltb_ℤ}
use ans_sdk_rust.Text.{Text}
use ans_sdk_rust.Pop.Replay.{
  Inner, new, int_eq, bucket_of, bucket_end, stale_ids, evict, remove_entry, store_new, check_seen,
  check_and_store,
}
use ans_sdk_rust.Pop.Replay.SingleUse.{Call, check_call, evict_call, run_call, run_calls}
use ans_sdk_rust.Pop.Replay.Tracked.{
  Tracked, add-Tracked, remove_entry-Tracked, evict_ids-Tracked, evict_ids-left, stale_ids_complete,
}

evict-Tracked : (now : ℤ) (s : Inner) → Tracked s → Tracked (evict now s)
unfolding evict
evict-Tracked now s tracked = evict_ids-Tracked (stale_ids now s.buckets) s tracked

evict-left :
    (now : ℤ) (s : Inner) (k : Text) (x : ℤ)
    → Tracked s
    → lookup k (evict now s).index ≡ some x
    → leb_ℤ (bucket_end (bucket_of x)) now ≡ false
unfolding evict
evict-left now s k x tracked e =
    let (before, apart) = evict_ids-left (stale_ids now s.buckets) s k x tracked e in
    stale_ids_complete now (bucket_of x) s.buckets k (tracked k x before) apart

new-Tracked : (max_entries : ℕ) → Tracked (new max_entries)
unfolding lookup
new-Tracked max_entries k x e = absurd (ground arith)

store_new-Tracked : (key : Text) (exp : ℤ) (s : Inner) → Tracked s → Tracked (store_new key exp s).1
store_new-Tracked key exp s h = elim (Bool-cases (leb s.max_entries (length s.index))) [
  | inl full ↦ rw full h
  | inr room ↦ rw room (add-Tracked key exp s h)
]

check_seen-Tracked :
    (key : Text) (exp now : ℤ) (seen : Option ℤ) (s : Inner)
    → Tracked s
    → Tracked (check_seen key exp now seen s).1
check_seen-Tracked key exp now none s h = store_new-Tracked key exp s h
check_seen-Tracked key exp now (some existing) s h = elim (Bool-cases (ltb_ℤ now existing)) [
  | inl live ↦ rw live h
  | inr expired ↦ rw expired (
      store_new-Tracked key exp (remove_entry key existing s)
        (remove_entry-Tracked key existing s h))
]

run_calls-Tracked : (calls : List Call) (s : Inner) → Tracked s → Tracked (run_calls calls s)
unfolding run_calls run_call check_and_store
run_calls-Tracked [] s h = h
run_calls-Tracked (check_call now key exp ∷ calls) s h =
    let h' = evict-Tracked now s h in
    run_calls-Tracked calls _ (elim (Bool-cases (leb_ℤ exp now)) [
      | inl late ↦ rw (late, check_and_store, run_call) h'
      | inr timely ↦
          rw (timely, check_and_store, run_call)
            (check_seen-Tracked key exp now (lookup key (evict now s).index) (evict now s) h')
    ])
run_calls-Tracked (evict_call now ∷ calls) s h = run_calls-Tracked calls _ (evict-Tracked now s h)

end_before :
    (exp now : ℤ) → leb_ℤ (bucket_end (bucket_of exp)) now ≡ false → ltb_ℤ now (exp +ℤ pos 5) ≡ true
unfolding bucket_end bucket_of ◌+ℤ◌
end_before exp now h = ground (arith, h)

-- Whatever calls were made, an eviction leaves no entry whose expiry is five seconds or more in
-- the past: none is lost track of, so the entries that fill the cache are all recent.
pub reclaimed :
    (max_entries : ℕ) (calls : List Call) (now : ℤ) (key : Text) (exp : ℤ)
    → lookup key (evict now (run_calls calls (new max_entries))).index ≡ some exp
    → ltb_ℤ now (exp +ℤ pos 5) ≡ true
reclaimed max_entries calls now key exp e =
    let tracked = run_calls-Tracked calls (new max_entries) (new-Tracked max_entries) in
    end_before exp now (evict-left now (run_calls calls (new max_entries)) key exp tracked e)
