-- ===== src/Cache/Invalidation.antt =====
-- The index covers the store, and what an invalidation leaves.
use ans_sdk_rust.Prelude.{
  ℕ, ◌≡◌, inl, inr, refl, sym, ap, ◌∙◌, Bool, true, false, List, [], ◌∷◌, none, some, text_eq,
  lookup, contains, without, lookup-insert, lookup-remove, Bool-cases, arith, ◌=t◌, =t_iff, =t_self,
  Option-cases,
}
use ans_sdk_rust.Text.{Text, to_lowercase, to_lowercase_idem}
use ans_sdk_rust.Types.Badge.{Badge}
use ans_sdk_rust.Types.Fqdn.{Fqdn}
use ans_sdk_rust.Types.Version.{Version, version_eq_iff, version_eq_instance}
use ans_sdk_rust.Cache.{
  CacheConfig, CacheKey, fqdn_version_key, url_key, key_of, CachedBadge, Moka, MokaLaws, BadgeCache,
  or_default, max_of, add_version, new, get_allow_stale, insert_with_ttl, insert_for_fqdn_version,
  invalidate, clear, collect_for_fqdn, drop_versions, invalidate_fqdn, set_version_index,
}
use ans_sdk_rust.Cache.Versions.{add_version_self, add_version_mono, contains-without}

host_of : CacheKey → Text
host_of (fqdn_version_key host v) = host
host_of (url_key url) = []

version_of : CacheKey → Version
version_of (fqdn_version_key host v) = v
version_of (url_key url) = record { major = 0; minor = 0; patch = 0 }

-- The calls that change a cache.
pub data Op : Type 0 where
  insert_op : ℕ → CacheKey → Badge → ℕ → Op
  insert_host_op : ℕ → Fqdn → Version → Badge → Op
  invalidate_op : CacheKey → Op
  invalidate_host_op : Fqdn → Op
  set_index_op : Fqdn → List Version → Op
  clear_op : Op

unfoldable pub apply : (m : Moka) → Op → BadgeCache m → BadgeCache m
apply m (insert_op now key badge ttl) c = insert_with_ttl m now key badge ttl c
apply m (insert_host_op now host v badge) c = insert_for_fqdn_version m now host v badge c
apply m (invalidate_op key) c = invalidate m key c
apply m (invalidate_host_op host) c = invalidate_fqdn m host c
apply m (set_index_op host versions) c = set_version_index m host versions c
apply m clear_op c = clear m c

unfoldable pub run : (m : Moka) → List Op → BadgeCache m → BadgeCache m
run m [] c = c
run m (op ∷ ops) c = run m ops (apply m op c)

module _ (m : Moka) where
  -- After an invalidation the scans of the host find nothing.
  pub scan_invalidated :
      (fqdn : Fqdn) (c : BadgeCache m) (t : ℕ) (allow_stale : Bool)
      → collect_for_fqdn m t fqdn allow_stale (invalidate_fqdn m fqdn c) ≡ []
  unfolding invalidate_fqdn collect_for_fqdn
  scan_invalidated fqdn c t allow_stale =
      let host = to_lowercase fqdn.name in
      let gone = lookup-remove host host c.version_index in ground (arith, gone, =t_self host)

module _ (m : Moka) (laws : MokaLaws m) where
  -- Every entry that is stored under a host and a version is listed in the index of that host.
  abbrev pub Covers : BadgeCache m → Type 0
  Covers c =
      (t : ℕ) (fqdn : Fqdn) (v : Version) (w : CachedBadge)
      → m.find t (key_of fqdn v) c.cache ≡ some w
      → contains (or_default (lookup (to_lowercase fqdn.name) c.version_index)) v ≡ true

  pub drop_versions-find :
      (fqdn : Fqdn) (vs : List Version) (t : ℕ) (k : CacheKey) (w : CachedBadge) (s : m.Store)
      → m.find t k (drop_versions m fqdn vs s) ≡ some w
      → (m.find t k s ≡ some w) × ((v : Version) → k ≡ key_of fqdn v → contains vs v ≡ false)
  unfolding drop_versions contains
  drop_versions-find fqdn [] t k w s h = (h, λ v e. refl)
  drop_versions-find fqdn (x ∷ xs) t k w s h =
      let (kept, others) = drop_versions-find fqdn xs t k w (m.drop (key_of fqdn x) s) h in
      let (differs, before) = laws.find-drop t (key_of fqdn x) k w s kept in
      (
        before,
        λ v e. ground (
          arith,
          version_eq_iff x v,
          others v e,
          λ (p : x ≡ v). differs (e ∙ ap (key_of fqdn) (sym p)),
        ),
      )

  Covers-new : (config : CacheConfig) → Covers (new m config)
  unfolding new
  Covers-new config t fqdn v w h = absurd (
      ground (
        arith,
        laws.find-build t config.max_entries (max_of config.hard_ttl config.default_ttl)
            (key_of fqdn v),
      ))

  Covers-insert :
      (now : ℕ) (key : CacheKey) (badge : Badge) (ttl : ℕ) (c : BadgeCache m)
      → Covers c
      → Covers (insert_with_ttl m now key badge ttl c)
  unfolding insert_with_ttl host_of version_of
  Covers-insert now (url_key url) badge ttl c cov t fqdn v w h =
      elim (laws.find-store t now (url_key url) (key_of fqdn v) _ w c.cache h) [
        | inl (same, _) ↦ cc
        | inr (_, prior) ↦ cov t fqdn v w prior
      ]
  Covers-insert now (fqdn_version_key f ver) badge ttl c cov t fqdn v w h =
      let host = to_lowercase f in
      let mine = to_lowercase fqdn.name in
      let versions = or_default (lookup host c.version_index) in
      let listed = add_version ver versions in
      let found = lookup-insert host mine listed c.version_index in
      elim (laws.find-store t now (fqdn_version_key f ver) (key_of fqdn v) _ w c.cache h) [
        | inl (same, _) ↦
            let e : host =t mine ≡ true =
              (=t_iff host mine).1
                (sym (ap (λ k. to_lowercase (host_of k)) same) ∙ to_lowercase_idem fqdn.name) in
            rw (found, e, ap version_of same) (add_version_self ver versions)
        | inr (_, prior) ↦ elim (Bool-cases (host =t mine)) [
          | inl e ↦
              rw (found, e)
                (add_version_mono ver v versions
                  (rw ((=t_iff host mine).0 e) (cov t fqdn v w prior)))
          | inr e ↦ rw (found, e) (cov t fqdn v w prior)
        ]
      ]

  Covers-invalidate : (key : CacheKey) (c : BadgeCache m) → Covers c → Covers (invalidate m key c)
  unfolding invalidate
  Covers-invalidate key c cov t fqdn v w h =
      cov t fqdn v w (laws.find-drop t key (key_of fqdn v) w c.cache h).1

  Covers-clear : (c : BadgeCache m) → Covers (clear m c)
  unfolding clear
  Covers-clear c t fqdn v w h =
      absurd (ground (arith, laws.find-drop_all t (key_of fqdn v) c.cache))

  Covers-invalidate_fqdn :
      (host : Fqdn) (c : BadgeCache m) → Covers c → Covers (invalidate_fqdn m host c)
  unfolding invalidate_fqdn
  Covers-invalidate_fqdn host c cov t fqdn v w h =
      let theirs = to_lowercase host.name in
      let mine = to_lowercase fqdn.name in
      let versions = or_default (lookup theirs c.version_index) in
      let (prior, gone) = drop_versions-find host versions t (key_of fqdn v) w c.cache h in
      elim (Bool-cases (theirs =t mine)) [
        | inl e ↦
            let same = (=t_iff theirs mine).0 e in
            let here : contains versions v ≡ true = rw same (cov t fqdn v w prior) in
            let absent = gone v (ap (λ h. fqdn_version_key h v) (sym same)) in
            absurd (cc (here, absent))
        | inr e ↦ rw (lookup-remove, e) (cov t fqdn v w prior)
      ]

  Covers-set_version_index :
      (host : Fqdn) (versions : List Version) (c : BadgeCache m)
      → Covers c
      → Covers (set_version_index m host versions c)
  unfolding set_version_index
  Covers-set_version_index host listed c cov t fqdn v w h =
      let theirs = to_lowercase host.name in
      let mine = to_lowercase fqdn.name in
      let versions = or_default (lookup theirs c.version_index) in
      let (prior, gone) =
        drop_versions-find host (without listed versions) t (key_of fqdn v) w c.cache h in
      elim (Bool-cases (theirs =t mine)) [
        | inl e ↦ elim (Bool-cases (contains listed v)) [
          | inl kept ↦ rw (lookup-insert, e) kept
          | inr lost ↦
              let same = (=t_iff theirs mine).0 e in
              let here : contains versions v ≡ true = rw same (cov t fqdn v w prior) in
              let absent = gone v (ap (λ h. fqdn_version_key h v) (sym same)) in
              absurd (cc (contains-without listed versions v here lost, absent))
        ]
        | inr e ↦ rw (lookup-insert, e) (cov t fqdn v w prior)
      ]

  Covers-insert_for_fqdn_version :
      (now : ℕ) (fqdn : Fqdn) (v : Version) (badge : Badge) (c : BadgeCache m)
      → Covers c
      → Covers (insert_for_fqdn_version m now fqdn v badge c)
  unfolding insert_for_fqdn_version
  Covers-insert_for_fqdn_version now fqdn v badge c cov =
      Covers-insert now (key_of fqdn v) badge c.config.default_ttl c cov

  invalidate_fqdn_empties :
      (fqdn : Fqdn) (c : BadgeCache m) (t : ℕ) (v : Version) (allow_stale : Bool)
      → Covers c
      → (get_allow_stale m t (key_of fqdn v) (invalidate_fqdn m fqdn c) ≡ none)
        × (collect_for_fqdn m t fqdn allow_stale (invalidate_fqdn m fqdn c) ≡ [])
  unfolding invalidate_fqdn get_allow_stale contains
  invalidate_fqdn_empties fqdn c t v allow_stale cov =
      let host = to_lowercase fqdn.name in
      let gone = lookup-remove host host c.version_index in
      (
        elim (Option-cases (m.find t (key_of fqdn v) (invalidate_fqdn m fqdn c).cache)) [
          | inl e ↦ e
          | inr (w, e) ↦
              absurd
                (ground (arith, Covers-invalidate_fqdn fqdn c cov t fqdn v w e, gone, =t_self host))
        ],
        scan_invalidated m fqdn c t allow_stale,
      )

  Covers-apply : (op : Op) (c : BadgeCache m) → Covers c → Covers (apply m op c)
  unfolding apply
  Covers-apply (insert_op now key badge ttl) c = Covers-insert now key badge ttl c
  Covers-apply (insert_host_op now host v badge) c =
      Covers-insert_for_fqdn_version now host v badge c
  Covers-apply (invalidate_op key) c = Covers-invalidate key c
  Covers-apply (invalidate_host_op host) c = Covers-invalidate_fqdn host c
  Covers-apply (set_index_op host versions) c = Covers-set_version_index host versions c
  Covers-apply clear_op c = λ _. Covers-clear c

  Covers-run : (ops : List Op) (c : BadgeCache m) → Covers c → Covers (run m ops c)
  unfolding run
  Covers-run [] c cov = cov
  Covers-run (op ∷ ops) c cov = Covers-run ops (apply m op c) (Covers-apply op c cov)

  -- After any sequence of operations on a new cache, every badge that can still be read under a
  -- host and a version, stale or not, is listed in the index of that host.
  pub Covers-reachable : (config : CacheConfig) (ops : List Op) → Covers (run m ops (new m config))
  Covers-reachable config ops = Covers-run ops (new m config) (Covers-new config)

  -- Whatever was done before, invalidating a host leaves no badge of it: none is found under any
  -- version at any later time, even allowing stale ones, and the scans of the host are empty.
  pub invalidate_fqdn_forgets :
      (config : CacheConfig) (ops : List Op) (fqdn : Fqdn) (t : ℕ) (v : Version)
      (allow_stale : Bool)
      → (get_allow_stale m t (key_of fqdn v) (invalidate_fqdn m fqdn (run m ops (new m config)))
          ≡ none)
        × (collect_for_fqdn m t fqdn allow_stale (invalidate_fqdn m fqdn (run m ops (new m config)))
            ≡ [])
  invalidate_fqdn_forgets config ops fqdn t v allow_stale =
      invalidate_fqdn_empties fqdn (run m ops (new m config)) t v allow_stale
        (Covers-reachable config ops)

  -- After the DNS answer has set the versions of a host, only those versions can be read.
  pub set_version_index_restricts :
      (config : CacheConfig) (ops : List Op) (fqdn : Fqdn) (listed : List Version) (t : ℕ)
      (v : Version) (w : CachedBadge)
      → get_allow_stale m t
          (key_of fqdn v)
          (set_version_index m fqdn listed (run m ops (new m config)))
        ≡ some w
      → contains listed v ≡ true
  unfolding get_allow_stale set_version_index
  set_version_index_restricts config ops fqdn listed t v w h =
      let c = run m ops (new m config) in
      let host = to_lowercase fqdn.name in
      rw (lookup-insert host host listed c.version_index, =t_self host) at
        (Covers-set_version_index fqdn listed c (Covers-reachable config ops) t fqdn v w h)
