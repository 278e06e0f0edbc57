-- ===== src/Pop/Replay/Tracked.antt =====
-- That the buckets keep track of every entry of the index through an eviction.
use ans_sdk_rust.Prelude.{
  ◌≡◌, refl, ap, sym, inl, inr, true, false, List, [], ◌∷◌, Option, none, some, All, lookup, remove,
  contains, without, lookup-insert, lookup-remove, Bool-cases, arith, text_eq, ◌=t◌, =t_iff,
  =t_self,
}
use ans_sdk_rust.Prelude.Int.{eq_ℤ_iff, eq_ℤ, ℤ, leb_ℤ}
use ans_sdk_rust.Text.{Text}
use ans_sdk_rust.Pop.Replay.{
  Inner, int_eq, bucket, add_key, no_keys, drop_key, bucket_of, bucket_end, in_bucket, stale_ids,
  evict_keys, evict_bucket, evict_ids, add, remove_entry,
}

-- Every entry of the index stands in the bucket of its expiry.
abbrev pub Tracked : Inner → Type 0
Tracked s =
    (key : Text) (exp : ℤ)
    → lookup key s.index ≡ some exp
    → contains (bucket (bucket_of exp) s.buckets) key ≡ true

add_key_self : (key : Text) (keys : List Text) → contains (add_key key keys) key ≡ true
unfolding contains
add_key_self key keys = elim (Bool-cases (contains keys key)) [
  | inl old ↦ rw old old
  | inr fresh ↦ rw fresh (ground (arith, =t_self key))
]

add_key_mono :
    (key k : Text) (keys : List Text)
    → contains keys k ≡ true
    → contains (add_key key keys) k ≡ true
unfolding contains
add_key_mono key k keys h = elim (Bool-cases (contains keys key)) [
  | inl old ↦ rw old h
  | inr fresh ↦ rw fresh (ground (arith, h))
]

contains-drop :
    (key k : Text) (keys : List Text)
    → (key =t k) ≡ false
    → contains keys k ≡ true
    → contains (without (key ∷ []) keys) k ≡ true
unfolding contains without
contains-drop key k [] apart h = cc
contains-drop key k (x ∷ xs) apart h =
    ground (arith, =t_iff x k, =t_iff key x, =t_iff key k, contains-drop key k xs apart)

contains-no_keys : (k : Text) (keys : List Text) → contains keys k ≡ true → no_keys keys ≡ false
unfolding contains
contains-no_keys k [] h = cc
contains-no_keys k (x ∷ xs) h = refl

pub add-Tracked : (key : Text) (exp : ℤ) (s : Inner) → Tracked s → Tracked (add key exp s)
unfolding add
add-Tracked key exp s tracked k x e =
    let id = bucket_of exp in
    let keys = add_key key (bucket id s.buckets) in
    let listed = lookup-insert id (bucket_of x) keys s.buckets in
    elim (Bool-cases (key =t k)) [
      | inl same ↦
          let x_is : exp ≡ x = ground (arith, lookup-insert key k exp s.index) in
          let here : eq_ℤ id (bucket_of x) ≡ true =
            (eq_ℤ_iff id (bucket_of x)).1 (ap bucket_of x_is) in
          rw (listed, here, sym ((=t_iff key k).0 same)) (add_key_self key (bucket id s.buckets))
      | inr apart ↦
          let before : lookup k s.index ≡ some x =
            rw (lookup-insert key k exp s.index, apart) at e in
          elim (Bool-cases (eq_ℤ id (bucket_of x))) [
            | inl here ↦
                rw (listed, here)
                  (add_key_mono key k (bucket id s.buckets)
                    (rw ((eq_ℤ_iff id (bucket_of x)).0 here) (tracked k x before)))
            | inr elsewhere ↦ rw (listed, elsewhere) (tracked k x before)
          ]
    ]

drop_key-Tracked :
    (id i : ℤ) (key k : Text) (found : Option (List Text)) (buckets : List (ℤ × List Text))
    → lookup id buckets ≡ found
    → (key =t k) ≡ false
    → contains (bucket i buckets) k ≡ true
    → contains (bucket i (drop_key id key found buckets)) k ≡ true
drop_key-Tracked id i key k none buckets f apart h = h
drop_key-Tracked id i key k (some keys) buckets f apart h =
    let left = without (key ∷ []) keys in
    elim (Bool-cases (eq_ℤ id i)) [
      | inl here ↦
          let same = (eq_ℤ_iff id i).0 here in
          let inside : contains keys k ≡ true = rw (sym same, f) at h in
          let still = contains-drop key k keys apart inside in
          rw (contains-no_keys k left still, lookup-insert id i left buckets, here) still
      | inr elsewhere ↦ elim (Bool-cases (no_keys left)) [
        | inl empty ↦ rw (empty, lookup-remove id i buckets, elsewhere) h
        | inr more ↦ rw (more, lookup-insert id i left buckets, elsewhere) h
      ]
    ]

pub remove_entry-Tracked :
    (key : Text) (exp : ℤ) (s : Inner) → Tracked s → Tracked (remove_entry key exp s)
unfolding remove_entry
remove_entry-Tracked key exp s tracked k x e = elim (Bool-cases (key =t k)) [
  | inl same ↦ absurd (ground (arith, lookup-remove key k s.index))
  | inr apart ↦
      drop_key-Tracked (bucket_of exp) (bucket_of x) key k (lookup (bucket_of exp) s.buckets)
        s.buckets refl apart (tracked k x (rw (lookup-remove key k s.index, apart) at e))
]

-- What is left in the index was there, and is in no bucket that was dropped with it.
evict_keys-left :
    (id : ℤ) (keys : List Text) (index : List (Text × ℤ)) (k : Text) (x : ℤ)
    → lookup k (evict_keys id keys index) ≡ some x
    → (lookup k index ≡ some x) × (contains keys k ≡ true → eq_ℤ (bucket_of x) id ≡ false)
unfolding evict_keys contains
evict_keys-left id [] index k x e = (e, λ h. cc)
evict_keys-left id (key ∷ keys) index k x e = elim (Bool-cases (in_bucket id (lookup key index))) [
  | inl gone ↦
      let (before, others) =
        evict_keys-left id keys (remove key index) k x (rw (gone, evict_keys) at e) in
      elim (Bool-cases (key =t k)) [
        | inl same ↦ absurd (ground (arith, lookup-remove key k index))
        | inr apart ↦ (
          rw (lookup-remove key k index, apart) at before,
          λ h. others (ground (arith, apart, h)),
        )
      ]
  | inr kept ↦
      let (before, others) = evict_keys-left id keys index k x (rw (kept, evict_keys) at e) in
      elim (Bool-cases (key =t k)) [
        | inl same ↦
            let mine : lookup key index ≡ some x = rw ((=t_iff key k).0 same) before in
            (before, λ h. rw mine at kept)
        | inr apart ↦ (before, λ h. others (ground (arith, apart, h)))
      ]
]

evict_bucket-left :
    (id : ℤ) (found : Option (List Text)) (s : Inner) (k : Text) (x : ℤ)
    → lookup id s.buckets ≡ found
    → Tracked s
    → lookup k (evict_bucket id found s).index ≡ some x
    → (lookup k s.index ≡ some x) × (eq_ℤ (bucket_of x) id ≡ false)
unfolding contains
evict_bucket-left id none s k x f tracked e = (
  e,
  elim (Bool-cases (eq_ℤ (bucket_of x) id)) [
    | inr apart ↦ apart
    | inl same ↦
        let here = rw ((eq_ℤ_iff (bucket_of x) id).0 same, f) at (tracked k x e) in absurd (cc here)
  ],
)
evict_bucket-left id (some keys) s k x f tracked e =
    let (before, other) = evict_keys-left id keys s.index k x e in
    (
      before,
      elim (Bool-cases (eq_ℤ (bucket_of x) id)) [
        | inr apart ↦ apart
        | inl same ↦ other (rw ((eq_ℤ_iff (bucket_of x) id).0 same, f) at (tracked k x before))
      ],
    )

evict_bucket-Tracked :
    (id : ℤ) (found : Option (List Text)) (s : Inner)
    → lookup id s.buckets ≡ found
    → Tracked s
    → Tracked (evict_bucket id found s)
evict_bucket-Tracked id none s f tracked k x e = tracked k x e
evict_bucket-Tracked id (some keys) s f tracked k x e =
    let (before, apart) = evict_bucket-left id (some keys) s k x f tracked e in
    let apart' : eq_ℤ id (bucket_of x) ≡ false =
      ground (arith, apart, eq_ℤ_iff id (bucket_of x), eq_ℤ_iff (bucket_of x) id) in
    rw (lookup-remove id (bucket_of x) s.buckets, apart') (tracked k x before)

pub evict_ids-Tracked : (ids : List ℤ) (s : Inner) → Tracked s → Tracked (evict_ids ids s)
unfolding evict_ids
evict_ids-Tracked [] s tracked = tracked
evict_ids-Tracked (id ∷ ids) s tracked =
    evict_ids-Tracked ids _ (evict_bucket-Tracked id (lookup id s.buckets) s refl tracked)

pub evict_ids-left :
    (ids : List ℤ) (s : Inner) (k : Text) (x : ℤ)
    → Tracked s
    → lookup k (evict_ids ids s).index ≡ some x
    → (lookup k s.index ≡ some x) × All (λ id. eq_ℤ (bucket_of x) id ≡ false) ids
unfolding evict_ids
evict_ids-left [] s k x tracked e = (e, tt)
evict_ids-left (id ∷ ids) s k x tracked e =
    let t = evict_bucket id (lookup id s.buckets) s in
    let (before, apart) =
      evict_ids-left ids t k x (evict_bucket-Tracked id (lookup id s.buckets) s refl tracked) e in
    let (first, other) = evict_bucket-left id (lookup id s.buckets) s k x refl tracked before in
    (first, (other, apart))

-- A bucket with keys whose generation has run out is among those that are evicted.
pub stale_ids_complete :
    (now id : ℤ) (buckets : List (ℤ × List Text)) (k : Text)
    → contains (bucket id buckets) k ≡ true
    → All (λ i. eq_ℤ id i ≡ false) (stale_ids now buckets)
    → leb_ℤ (bucket_end id) now ≡ false
unfolding stale_ids contains lookup
stale_ids_complete now id [] k h apart = cc
stale_ids_complete now id ((i, keys) ∷ rest) k h apart = elim (Bool-cases (eq_ℤ i id)) [
  | inl same ↦ elim (Bool-cases (leb_ℤ (bucket_end i) now)) [
    | inl stale ↦
        let (other, _) = rw stale at apart in
        absurd (ground (arith, other, eq_ℤ_iff id i, eq_ℤ_iff i id))
    | inr live ↦ rw (sym ((eq_ℤ_iff i id).0 same)) live
  ]
  | inr other ↦
      let later : contains (bucket id rest) k ≡ true = rw other at h in
      elim (Bool-cases (leb_ℤ (bucket_end i) now)) [
        | inl stale ↦ stale_ids_complete now id rest k later (rw stale at apart).1
        | inr live ↦ stale_ids_complete now id rest k later (rw live at apart)
      ]
]
