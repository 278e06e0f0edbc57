-- ===== src/Cache/Holds.antt =====
-- A property of every badge that a cache holds.
use ans_sdk_rust.Prelude.{
  ℕ, ◌≡◌, ap, ◌∙◌, inl, inr, Bool, true, false, List, [], ◌∷◌, some, All, Option-cases, arith,
  lookup, text_eq, without,
}
use ans_sdk_rust.Text.{to_lowercase}
use ans_sdk_rust.Types.Badge.{Badge}
use ans_sdk_rust.Types.Fqdn.{Fqdn}
use ans_sdk_rust.Types.Version.{Version, version_eq_instance}
use ans_sdk_rust.Cache.{
  invalidate, CacheKey, key_of, CachedBadge, is_valid, Moka, MokaLaws, BadgeCache, or_default, get,
  get_allow_stale, collect, collect_for_fqdn, insert_for_fqdn_version, invalidate_fqdn,
  set_version_index,
}
use ans_sdk_rust.Cache.Invalidation.{drop_versions-find}

module _ (m : Moka) (laws : MokaLaws m) (P : Badge → Type 0) where
  abbrev pub Holds : BadgeCache m → Type 0
  Holds c = (t : ℕ) (k : CacheKey) (w : CachedBadge) → m.find t k c.cache ≡ some w → P w.badge

  pub Holds-invalidate_fqdn :
      (fqdn : Fqdn) (c : BadgeCache m) → Holds c → Holds (invalidate_fqdn m fqdn c)
  unfolding invalidate_fqdn
  Holds-invalidate_fqdn fqdn c h t k w e =
      let versions = or_default (lookup (to_lowercase fqdn.name) c.version_index) in
      h t k w (drop_versions-find m laws fqdn versions t k w c.cache e).0

  pub Holds-invalidate : (key : CacheKey) (c : BadgeCache m) → Holds c → Holds (invalidate m key c)
  unfolding invalidate
  Holds-invalidate key c h t k w e = h t k w (laws.find-drop t key k w c.cache e).1

  pub Holds-set_version_index :
      (fqdn : Fqdn) (versions : List Version) (c : BadgeCache m)
      → Holds c
      → Holds (set_version_index m fqdn versions c)
  unfolding set_version_index
  Holds-set_version_index fqdn versions c h t k w e =
      let old = or_default (lookup (to_lowercase fqdn.name) c.version_index) in
      h t k w (drop_versions-find m laws fqdn (without versions old) t k w c.cache e).0

  pub Holds-insert_for_fqdn_version :
      (now : ℕ) (fqdn : Fqdn) (v : Version) (badge : Badge) (c : BadgeCache m)
      → P badge
      → Holds c
      → Holds (insert_for_fqdn_version m now fqdn v badge c)
  unfolding insert_for_fqdn_version
  Holds-insert_for_fqdn_version now fqdn v badge c p h t k w e =
      elim (laws.find-store t now (key_of fqdn v) k _ w c.cache e) [
        | inl (_, same) ↦ rw same p
        | inr (_, prior) ↦ h t k w prior
      ]

  pub get-Holds :
      (now : ℕ) (key : CacheKey) (c : BadgeCache m) (w : CachedBadge)
      → Holds c
      → get m now key c ≡ some w
      → P w.badge
  unfolding get
  get-Holds now key c w h e = elim (Option-cases (m.find now key c.cache)) [
    | inl miss ↦ absurd (ground arith)
    | inr (u, hit) ↦ let same : u ≡ w = ground arith in h now key w (hit ∙ ap some same)
  ]

  collect-All :
      (now : ℕ) (fqdn : Fqdn) (allow_stale : Bool) (vs : List Version) (c : BadgeCache m)
      → Holds c
      → All (λ w. P w.badge) (collect m now fqdn allow_stale vs c)
  unfolding collect get_allow_stale
  collect-All now fqdn allow_stale [] c h = tt
  collect-All now fqdn true (v ∷ vs) c h =
      let key = key_of fqdn v in
      let rest = collect-All now fqdn true vs c h in
      elim (Option-cases (get_allow_stale m now key c)) [
        | inl e ↦ rw (e, collect) rest
        | inr (w, e) ↦ rw (e, collect) (h now key w e, rest)
      ]
  collect-All now fqdn false (v ∷ vs) c h =
      let key = key_of fqdn v in
      let rest = collect-All now fqdn false vs c h in
      elim (Option-cases (get m now key c)) [
        | inl e ↦ rw (e, collect) rest
        | inr (w, e) ↦ rw (e, collect) (get-Holds now key c w h e, rest)
      ]

  pub collect_for_fqdn-All :
      (now : ℕ) (fqdn : Fqdn) (allow_stale : Bool) (c : BadgeCache m)
      → Holds c
      → All (λ w. P w.badge) (collect_for_fqdn m now fqdn allow_stale c)
  unfolding collect_for_fqdn
  collect_for_fqdn-All now fqdn allow_stale c h =
      elim (Option-cases (lookup (to_lowercase fqdn.name) c.version_index)) [
        | inl miss ↦ rw (miss, collect_for_fqdn) tt
        | inr (vs, hit) ↦ rw (hit, collect_for_fqdn) (collect-All now fqdn allow_stale vs c h)
      ]

module _ (m : Moka) where
  get-is_valid :
      (now : ℕ) (key : CacheKey) (c : BadgeCache m) (w : CachedBadge)
      → get m now key c ≡ some w
      → is_valid now w ≡ true
  unfolding get
  get-is_valid now key c w e = elim (Option-cases (m.find now key c.cache)) [
    | inl miss ↦ absurd (ground arith)
    | inr (u, hit) ↦ ground arith
  ]

  collect-is_valid :
      (now : ℕ) (fqdn : Fqdn) (vs : List Version) (c : BadgeCache m)
      → All (λ w. true ≡ true → is_valid now w ≡ true) (collect m now fqdn false vs c)
  unfolding collect
  collect-is_valid now fqdn [] c = tt
  collect-is_valid now fqdn (v ∷ vs) c =
      let rest = collect-is_valid now fqdn vs c in
      elim (Option-cases (get m now (key_of fqdn v) c)) [
        | inl e ↦ rw (e, collect) rest
        | inr (w, e) ↦ rw (e, collect) ((λ _. get-is_valid now (key_of fqdn v) c w e), rest)
      ]

  pub collect_for_fqdn-is_valid :
      (now : ℕ) (fqdn : Fqdn) (c : BadgeCache m)
      → All (λ w. true ≡ true → is_valid now w ≡ true) (collect_for_fqdn m now fqdn false c)
  unfolding collect_for_fqdn
  collect_for_fqdn-is_valid now fqdn c =
      elim (Option-cases (lookup (to_lowercase fqdn.name) c.version_index)) [
        | inl miss ↦ rw (miss, collect_for_fqdn) tt
        | inr (vs, hit) ↦ rw (hit, collect_for_fqdn) (collect-is_valid now fqdn vs c)
      ]
