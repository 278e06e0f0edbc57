-- ===== src/Prelude/Sort.antt =====
-- The stable sort of the standard library, by a comparison that says which item comes first.
use mathlib.Core.Path.{◌≡◌, refl, ap, ◌∙◌}
use mathlib.Core.Logic.{◌⊎◌, inl, inr}
use mathlib.Core.Bool.{Bool, true, false}
use mathlib.Core.List.{List, [], ◌∷◌}
use mathlib.Core.List.Permᴰ
use mathlib.Core.List.{Permᴰ}
use ans_sdk_rust.Prelude.Tests.{if◌then◌else◌, Bool-cases}
use ans_sdk_rust.Prelude.Lists.{All, Any, here, there, filter}

module _ {ℓ} {A : Type ℓ} (precedes : A → A → Bool) where
  unfoldable pub insert_by : A → List A → List A
  insert_by a [] = a ∷ []
  insert_by a (b ∷ bs) =
      let later = b ∷ insert_by a bs in if precedes b a then later else a ∷ b ∷ bs

  unfoldable pub sort_by : List A → List A
  unfolding insert_by
  sort_by [] = []
  sort_by (a ∷ xs) = insert_by a (sort_by xs)

  module _ {κ} (P : A → Type κ) where
    insert_by_self : (a : A) (bs : List A) → P a → Any P (insert_by a bs)
    unfolding insert_by
    insert_by_self a [] p = here p
    insert_by_self a (b ∷ bs) p = elim (Bool-cases (precedes b a)) [
      | inl later ↦ rw later (there (insert_by_self a bs p))
      | inr first ↦ rw first (here p)
    ]

    insert_by-Any : (a : A) (bs : List A) → Any P bs → Any P (insert_by a bs)
    unfolding insert_by
    insert_by-Any a [] h = elim h [ ]
    insert_by-Any a (b ∷ bs) (here p) = elim (Bool-cases (precedes b a)) [
      | inl later ↦ rw later (here p)
      | inr first ↦ rw first (there (here p))
    ]
    insert_by-Any a (b ∷ bs) (there q) = elim (Bool-cases (precedes b a)) [
      | inl later ↦ rw later (there (insert_by-Any a bs q))
      | inr first ↦ rw first (there (there q))
    ]

    pub sort_by-Any : (xs : List A) → Any P xs → Any P (sort_by xs)
    unfolding sort_by
    sort_by-Any [] h = h
    sort_by-Any (a ∷ xs) (here p) = insert_by_self a (sort_by xs) p
    sort_by-Any (a ∷ xs) (there q) = insert_by-Any a (sort_by xs) (sort_by-Any xs q)

    Any-insert_by : (a : A) (bs : List A) → Any P (insert_by a bs) → P a ⊎ Any P bs
    unfolding insert_by
    Any-insert_by a [] (here p) = inl p
    Any-insert_by a [] (there h) = inr h
    Any-insert_by a (b ∷ bs) h = elim (Bool-cases (precedes b a)) [
      | inl later ↦ in_later a b bs (rw later at h) (Any-insert_by a bs)
      | inr first ↦ in_first a b bs (rw first at h)
    ]
      where
        in_later :
            (a b : A) (bs : List A)
            → Any P (b ∷ insert_by a bs)
            → (Any P (insert_by a bs) → P a ⊎ Any P bs)
            → P a ⊎ Any P (b ∷ bs)
        in_later a b bs (here p) rec = inr (here p)
        in_later a b bs (there h) rec = elim (rec h) [ inl p ↦ inl p | inr q ↦ inr (there q) ]

        in_first : (a b : A) (bs : List A) → Any P (a ∷ b ∷ bs) → P a ⊎ Any P (b ∷ bs)
        in_first a b bs (here p) = inl p
        in_first a b bs (there h) = inr h

    pub Any-sort_by : (xs : List A) → Any P (sort_by xs) → Any P xs
    unfolding sort_by
    Any-sort_by [] h = h
    Any-sort_by (a ∷ xs) h = elim (Any-insert_by a (sort_by xs) h) [
      | inl p ↦ here p
      | inr q ↦ there (Any-sort_by xs q)
    ]

    insert_by-All : (a : A) (bs : List A) → P a → All P bs → All P (insert_by a bs)
    unfolding insert_by
    insert_by-All a [] p h = (p, tt)
    insert_by-All a (b ∷ bs) p (q, h) = elim (Bool-cases (precedes b a)) [
      | inl later ↦ rw later (q, insert_by-All a bs p h)
      | inr first ↦ rw first (p, (q, h))
    ]

    pub sort_by-All : (xs : List A) → All P xs → All P (sort_by xs)
    unfolding sort_by
    sort_by-All [] h = h
    sort_by-All (a ∷ xs) (p, h) = insert_by-All a (sort_by xs) p (sort_by-All xs h)

  insert_by-Perm : (a : A) (bs : List A) → Permᴰ (insert_by a bs) (a ∷ bs)
  unfolding insert_by
  insert_by-Perm a [] = Permᴰ.refl (a ∷ [])
  insert_by-Perm a (b ∷ bs) = elim (Bool-cases (precedes b a)) [
    | inl later ↦
        rw later (Permᴰ.trans (Permᴰ.cons refl (insert_by-Perm a bs)) (Permᴰ.swap refl refl))
    | inr first ↦ rw first (Permᴰ.refl (a ∷ b ∷ bs))
  ]

  pub sort_by-Perm : (xs : List A) → Permᴰ (sort_by xs) xs
  unfolding sort_by
  sort_by-Perm [] = Permᴰ.refl []
  sort_by-Perm (a ∷ xs) =
      Permᴰ.trans (insert_by-Perm a (sort_by xs)) (Permᴰ.cons refl (sort_by-Perm xs))

  -- No item precedes one that stands before it.
  abbrev pub Sorted : List A → Type ℓ
  Sorted [] = Unit
  Sorted (a ∷ xs) = All (λ b. precedes b a ≡ false) xs × Sorted xs

  -- What makes the comparison a strict weak order.
  pub record IsOrder : Type ℓ where
    pub asym : (a b : A) → precedes a b ≡ true → precedes b a ≡ false
    pub not_trans : (a b c : A) → precedes b a ≡ false → precedes c b ≡ false → precedes c a ≡ false

  All-trans :
      IsOrder
      → (a b : A) (bs : List A) → precedes b a ≡ false
      → All (λ c. precedes c b ≡ false) bs
      → All (λ c. precedes c a ≡ false) bs
  All-trans order a b [] first h = tt
  All-trans order a b (c ∷ cs) first (p, h) =
      (order.not_trans a b c first p, All-trans order a b cs first h)

  insert_by-Sorted : IsOrder → (a : A) (bs : List A) → Sorted bs → Sorted (insert_by a bs)
  unfolding insert_by
  insert_by-Sorted order a [] h = (tt, tt)
  insert_by-Sorted order a (b ∷ bs) (below, h) = elim (Bool-cases (precedes b a)) [
    | inl later ↦ rw later (
      insert_by-All (λ c. precedes c b ≡ false) a bs (order.asym b a later) below,
      insert_by-Sorted order a bs h,
    )
    | inr first ↦ rw first ((first, All-trans order a b bs first below), (below, h))
  ]

  pub sort_by-Sorted : IsOrder → (xs : List A) → Sorted (sort_by xs)
  unfolding sort_by
  sort_by-Sorted order [] = tt
  sort_by-Sorted order (a ∷ xs) = insert_by-Sorted order a (sort_by xs) (sort_by-Sorted order xs)

  -- The sort is stable: items that pass a test, of which none precedes another, keep their order.
  module _ (p : A → Bool) (level : (a b : A) → p a ≡ true → p b ≡ true → precedes b a ≡ false) where
    insert_by-filter : (a : A) (bs : List A) → filter p (insert_by a bs) ≡ filter p (a ∷ bs)
    unfolding insert_by
    insert_by-filter a [] = refl
    insert_by-filter a (b ∷ bs) = elim (Bool-cases (precedes b a)) [
      | inr first ↦ rw first refl
      | inl later ↦ elim (Bool-cases (p a)) [
        | inr failed ↦
            let rest : filter p (insert_by a bs) ≡ filter p bs =
              rw failed at (insert_by-filter a bs) in
            rw (later, failed, rest) refl
        | inl passed ↦ elim (Bool-cases (p b)) [
          | inl both ↦ absurd (cc (later, level a b passed both))
          | inr other ↦
              let rest : filter p (insert_by a bs) ≡ a ∷ filter p bs =
                rw passed at (insert_by-filter a bs) in
              rw (later, passed, other) rest
        ]
      ]
    ]

    pub sort_by-filter : (xs : List A) → filter p (sort_by xs) ≡ filter p xs
    unfolding sort_by
    sort_by-filter [] = refl
    sort_by-filter (a ∷ xs) =
        insert_by-filter a (sort_by xs)
        ∙ ap (λ rest. if p a then a ∷ rest else rest) (sort_by-filter xs)
