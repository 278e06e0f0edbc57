-- ===== src/Pop/Replay/SingleUse.antt =====
-- That a recorded identifier is refused until it expires.
use ans_sdk_rust.Prelude.{
  ◌≡◌, refl, sym, inl, inr, true, false, List, [], ◌∷◌, Option, none, some, if◌then◌else◌, All,
  length, leb, lookup, lookup-insert, lookup-remove, Bool-cases, Option-cases, arith, text_eq, ◌=t◌,
  =t_iff, =t_self,
}
use ans_sdk_rust.Prelude.Int.{eq_ℤ_iff, eq_ℤ, ℤ, ◌+ℤ◌, ◌<ℤ◌, leb_ℤ, ltb_ℤ}
use ans_sdk_rust.Text.{Text}
use ans_sdk_rust.Error.{ok, err}
use ans_sdk_rust.Pop.Errors.{proof_stale}
use ans_sdk_rust.Pop.Replay.{
  Inner, int_eq, bucket_of, bucket_end, in_bucket, stale_ids, evict_keys, evict_ids, evict, add,
  remove_entry, store_new, check_seen, check_and_store,
}

evict_keys-lookup :
    (id : ℤ) (keys : List Text) (index : List (Text × ℤ)) (key : Text) (exp : ℤ)
    → eq_ℤ (bucket_of exp) id ≡ false
    → lookup key index ≡ some exp
    → lookup key (evict_keys id keys index) ≡ some exp
unfolding evict_keys
evict_keys-lookup id [] index key exp other e = e
evict_keys-lookup id (k ∷ ks) index key exp other e =
    evict_keys-lookup id ks _ key exp other (elim (Bool-cases (in_bucket id (lookup k index))) [
      | inr kept ↦ rw kept e
      | inl gone ↦ elim (Bool-cases (k =t key)) [
        | inr apart ↦ rw gone (rw (lookup-remove k key index, apart) e)
        | inl same ↦
            let here : in_bucket id (lookup key index) ≡ true =
              rw (sym ((=t_iff k key).0 same)) gone in
            absurd (cc (rw e at here, other))
      ]
    ])

evict_ids-lookup :
    (ids : List ℤ) (s : Inner) (key : Text) (exp : ℤ)
    → All (λ id. eq_ℤ (bucket_of exp) id ≡ false) ids
    → lookup key s.index ≡ some exp
    → lookup key (evict_ids ids s).index ≡ some exp
unfolding evict_ids
evict_ids-lookup [] s key exp others e = e
evict_ids-lookup (id ∷ ids) s key exp (other, others) e =
    evict_ids-lookup ids _ key exp others (elim (Option-cases (lookup id s.buckets)) [
      | inl absent ↦ rw absent e
      | inr (keys, found) ↦ rw found (evict_keys-lookup id keys s.index key exp other e)
    ])

bucket_end_after : (exp : ℤ) → exp <ℤ bucket_end (bucket_of exp)
unfolding bucket_end bucket_of ◌+ℤ◌
bucket_end_after exp = ground arith

stale_ids-live :
    (now exp : ℤ) (buckets : List (ℤ × List Text))
    → ltb_ℤ now exp ≡ true
    → All (λ id. eq_ℤ (bucket_of exp) id ≡ false) (stale_ids now buckets)
unfolding stale_ids
stale_ids-live now exp [] live = tt
stale_ids-live now exp ((id, keys) ∷ rest) live = elim (Bool-cases (leb_ℤ (bucket_end id) now)) [
  | inr kept ↦ rw kept (stale_ids-live now exp rest live)
  | inl stale ↦ rw stale (
    elim (Bool-cases (eq_ℤ (bucket_of exp) id)) [
      | inr apart ↦ apart
      | inl same ↦
          let e = (eq_ℤ_iff (bucket_of exp) id).0 same in
          let after : exp <ℤ bucket_end id = rw (sym e) (bucket_end_after exp) in
          absurd (ground (arith, after, stale, live))
    ],
    stale_ids-live now exp rest live,
  )
]

pub evict-lookup :
    (now : ℤ) (s : Inner) (key : Text) (exp : ℤ)
    → ltb_ℤ now exp ≡ true
    → lookup key s.index ≡ some exp
    → lookup key (evict now s).index ≡ some exp
unfolding evict
evict-lookup now s key exp live e =
    evict_ids-lookup (stale_ids now s.buckets) s key exp (stale_ids-live now exp s.buckets live) e

add-lookup :
    (key key' : Text) (exp exp' : ℤ) (s : Inner)
    → (key' =t key) ≡ false
    → lookup key s.index ≡ some exp
    → lookup key (add key' exp' s).index ≡ some exp
unfolding add
add-lookup key key' exp exp' s apart e = rw (lookup-insert key' key exp' s.index, apart) e

store_new-lookup :
    (key key' : Text) (exp exp' : ℤ) (s : Inner)
    → (key' =t key) ≡ false
    → lookup key s.index ≡ some exp
    → lookup key (store_new key' exp' s).1.index ≡ some exp
store_new-lookup key key' exp exp' s apart e =
    elim (Bool-cases (leb s.max_entries (length s.index))) [
      | inl full ↦ rw full e
      | inr room ↦ rw room (add-lookup key key' exp exp' s apart e)
    ]

remove_entry-lookup :
    (key key' : Text) (exp exp' : ℤ) (s : Inner)
    → (key' =t key) ≡ false
    → lookup key s.index ≡ some exp
    → lookup key (remove_entry key' exp' s).index ≡ some exp
unfolding remove_entry
remove_entry-lookup key key' exp exp' s apart e = rw (lookup-remove key' key s.index, apart) e

other_seen-lookup :
    (key key' : Text) (exp exp' now : ℤ) (seen : Option ℤ) (s : Inner)
    → (key' =t key) ≡ false
    → lookup key s.index ≡ some exp
    → lookup key (check_seen key' exp' now seen s).1.index ≡ some exp
other_seen-lookup key key' exp exp' now none s apart e =
    store_new-lookup key key' exp exp' s apart e
other_seen-lookup key key' exp exp' now (some existing) s apart e =
    elim (Bool-cases (ltb_ℤ now existing)) [
      | inl live ↦ rw live e
      | inr expired ↦ rw expired (
          store_new-lookup key key' exp exp' (remove_entry key' existing s) apart
            (remove_entry-lookup key key' exp existing s apart e))
    ]

-- Every call keeps an entry that has not expired.
check_and_store-lookup :
    (now exp exp' : ℤ) (key key' : Text) (s : Inner)
    → ltb_ℤ now exp ≡ true
    → lookup key s.index ≡ some exp
    → lookup key (check_and_store now key' exp' s).1.index ≡ some exp
unfolding check_and_store
check_and_store-lookup now exp exp' key key' s live e =
    let s' = evict now s in
    let kept : lookup key s'.index ≡ some exp = evict-lookup now s key exp live e in
    elim (Bool-cases (leb_ℤ exp' now)) [
      | inl late ↦ rw late kept
      | inr timely ↦ elim (Bool-cases (key' =t key)) [
        | inl same ↦ rw (timely, (=t_iff key' key).0 same, kept, live) kept
        | inr apart ↦
            rw timely (other_seen-lookup key key' exp exp' now (lookup key' s'.index) s' apart kept)
      ]
    ]

-- A call that asks for a recorded key learns that it was seen, unless its own time is over.
check_and_store-seen :
    (now exp exp' : ℤ) (key : Text) (s : Inner)
    → ltb_ℤ now exp ≡ true
    → lookup key s.index ≡ some exp
    → (check_and_store now key exp' s).0 ≡ (if leb_ℤ exp' now then err proof_stale else ok true)
unfolding check_and_store
check_and_store-seen now exp exp' key s live e =
    let kept : lookup key (evict now s).index ≡ some exp = evict-lookup now s key exp live e in
    elim (Bool-cases (leb_ℤ exp' now)) [
      | inl late ↦ rw late refl
      | inr timely ↦ rw (timely, kept, live) refl
    ]

-- A call whose time is over.
pub check_and_store-late :
    (now exp : ℤ) (key : Text) (s : Inner)
    → leb_ℤ exp now ≡ true
    → (check_and_store now key exp s).0 ≡ err proof_stale
unfolding check_and_store
check_and_store-late now exp key s late = rw late refl

store_new-stores :
    (key : Text) (exp : ℤ) (s : Inner)
    → (store_new key exp s).0 ≡ ok false
    → lookup key (store_new key exp s).1.index ≡ some exp
unfolding add
store_new-stores key exp s e = elim (Bool-cases (leb s.max_entries (length s.index))) [
  | inl full ↦ absurd (ground arith)
  | inr room ↦ rw room (rw (lookup-insert key key exp s.index, =t_self key) refl)
]

check_seen-stores :
    (key : Text) (exp now : ℤ) (seen : Option ℤ) (s : Inner)
    → (check_seen key exp now seen s).0 ≡ ok false
    → lookup key (check_seen key exp now seen s).1.index ≡ some exp
check_seen-stores key exp now none s e = store_new-stores key exp s e
check_seen-stores key exp now (some existing) s e = elim (Bool-cases (ltb_ℤ now existing)) [
  | inl live ↦ absurd (ground arith)
  | inr expired ↦
      rw expired (store_new-stores key exp (remove_entry key existing s) (rw expired at e))
]

check_and_store-stores :
    (now exp : ℤ) (key : Text) (s : Inner)
    → (check_and_store now key exp s).0 ≡ ok false
    → lookup key (check_and_store now key exp s).1.index ≡ some exp
unfolding check_and_store
check_and_store-stores now exp key s e = elim (Bool-cases (leb_ℤ exp now)) [
  | inl late ↦ absurd (ground arith)
  | inr timely ↦ rw timely (
      check_seen-stores key exp now (lookup key (evict now s).index) (evict now s) (rw timely at e))
]

-- The calls that change the cache, each with the time at which it runs.
pub data Call : Type 0 where
  check_call : ℤ → Text → ℤ → Call
  evict_call : ℤ → Call

abbrev pub time_of : Call → ℤ
time_of (check_call now key exp) = now
time_of (evict_call now) = now

unfoldable pub run_call : Call → Inner → Inner
run_call (check_call now key exp) s = (check_and_store now key exp s).1
run_call (evict_call now) s = evict now s

unfoldable pub run_calls : List Call → Inner → Inner
run_calls [] s = s
run_calls (call ∷ calls) s = run_calls calls (run_call call s)

run_calls-lookup :
    (calls : List Call) (s : Inner) (key : Text) (exp : ℤ)
    → All (λ call. ltb_ℤ (time_of call) exp ≡ true) calls
    → lookup key s.index ≡ some exp
    → lookup key (run_calls calls s).index ≡ some exp
unfolding run_calls run_call
run_calls-lookup [] s key exp live e = e
run_calls-lookup (check_call now k x ∷ calls) s key exp (l, live) e =
    run_calls-lookup calls _ key exp live (check_and_store-lookup now exp x key k s l e)
run_calls-lookup (evict_call now ∷ calls) s key exp (l, live) e =
    run_calls-lookup calls _ key exp live (evict-lookup now s key exp l e)

-- An identifier that was recorded is refused until it expires: whatever calls are made in between,
-- for any identifiers and in any order of times before its expiry, a later call for it before its
-- expiry reports a replay, or that the call's own retention is over; it never records it again.
pub single_use :
    (s : Inner) (key : Text) (now exp : ℤ) (calls : List Call) (later exp' : ℤ)
    → (check_and_store now key exp s).0 ≡ ok false
    → All (λ call. ltb_ℤ (time_of call) exp ≡ true) calls
    → ltb_ℤ later exp ≡ true
    → (check_and_store later key exp' (run_calls calls (check_and_store now key exp s).1)).0
      ≡ (if leb_ℤ exp' later then err proof_stale else ok true)
single_use s key now exp calls later exp' stored live soon =
    check_and_store-seen later exp exp' key _ soon
      (run_calls-lookup calls _ key exp live (check_and_store-stores now exp key s stored))
