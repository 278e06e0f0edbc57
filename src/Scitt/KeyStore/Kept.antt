-- ===== src/Scitt/KeyStore/Kept.antt =====
-- That trusted keys are never lost or replaced, and how often keys are fetched.
use ans_sdk_rust.Prelude.{
  ℕ, ◌≡◌, ◌⊎◌, inl, inr, refl, sym, ap, ◌∙◌, Bool, true, false, not, List, [], ◌∷◌, Option, some,
  Option-cases, if◌then◌else◌, ◌=t◌, =t→≡, text_eq, lookup, insert, lookup-insert, arith,
  Bool-cases, ltb, length, ◌==◌,
}
use ans_sdk_rust.Prelude.Int.{◌-ℤ◌, leb_ℤ}
use ans_sdk_rust.Text.{Text, is_empty, byte_len, splitn}
use ans_sdk_rust.Error.{Result, ok, err, ScittError}
use ans_sdk_rust.Results.{
  Result-cases, bind-ok, ok_or, ok_or-ok, fail_if, fail_if-ok, ok_injective, same_text,
}
use ans_sdk_rust.Types.Fingerprint.{Crypto}
use ans_sdk_rust.Scitt.Keys.{
  KeyCrates, from_c2sp_keys, take, strip_type, three_parts, add_parsed, read_keys, KeyMap,
  TrustedKey, ScittKeyStore, parse_c2sp_key, merge_parsed, merge_keys, merge_from, from_keys,
}
use ans_sdk_rust.Scitt.KeyStore.{
  initial, KeyStoreState, KeyStoreConfig, ScittEnv, KeyState, do_refresh, should_refresh, refreshed,
  refresh_if_cooldown_elapsed,
}

-- The calls that other tasks make on a store while a verifier runs.
pub data RefreshCall : Type 0 where
  background on_demand : RefreshCall

if_either {ℓ κ} :
    {A : Type ℓ} (P : A → Type κ) (b : Bool) (x y : A) → P x → P y → P (if b then x else y)
if_either P true x y p q = p
if_either P false x y p q = q

module _ {Key : Type 0} (c : Crypto) (crates : KeyCrates Key) where
  merge_parsed-kept :
      (r : Result ScittError (TrustedKey Key)) (keys : KeyMap Key) (kid : List ℕ)
      (k : TrustedKey Key)
      → lookup kid keys ≡ some k
      → lookup kid (merge_parsed c crates r keys) ≡ some k
  merge_parsed-kept (err e) keys kid k h = h
  merge_parsed-kept (ok new) keys kid k h = elim (Option-cases (lookup new.kid keys)) [
    | inr (old, taken) ↦ rw taken h
    | inl free ↦ rw free (
        lookup-insert new.kid kid new keys
        ∙ ground (arith, =t→≡ new.kid kid, free, h, ap (λ x. lookup x keys) (refl {a = kid})))
  ]

  pub merge_keys-kept :
      (ts : List Text) (keys : KeyMap Key) (kid : List ℕ) (k : TrustedKey Key)
      → lookup kid keys ≡ some k
      → lookup kid (merge_keys c crates ts keys) ≡ some k
  unfolding merge_keys
  merge_keys-kept [] keys kid k h = h
  merge_keys-kept (t ∷ ts) keys kid k h =
      merge_keys-kept ts (merge_parsed c crates (parse_c2sp_key c crates t) keys) kid k
        (merge_parsed-kept (parse_c2sp_key c crates t) keys kid k h)

  nothing :
      (kid : List ℕ) (k : TrustedKey Key)
      → ◌≡◌ {A = Option (TrustedKey Key)} (lookup kid []) (some k)
      → ⊥
  unfolding lookup
  nothing kid k h = cc h

  -- The identifier is the start of the digest of the key's encoding.
  pub record KeyFits (kid : List ℕ) (k : TrustedKey Key) : Type 0 where
    pub same_kid : k.kid ≡ kid
    pub spki : List ℕ
    pub hashes : take 4 (c.sha256 spki) ≡ k.kid
    pub decodes : crates.key_from_der spki ≡ some k.key
    pub named : is_empty k.name ≡ false

  abbrev pub AllFit : KeyMap Key → Type 0
  AllFit keys = (kid : List ℕ) (k : TrustedKey Key) → lookup kid keys ≡ some k → KeyFits kid k

  parse_c2sp_key-KeyFits :
      (t : Text) (k : TrustedKey Key) → parse_c2sp_key c crates t ≡ ok k → KeyFits k.kid k
  unfolding parse_c2sp_key
  parse_c2sp_key-KeyFits t k h =
      let (parts, (_, h1)) = bind-ok (ok_or _ (three_parts (splitn 3 b'+' t))) _ _ h in
      let (_, (e2, h2)) = bind-ok (fail_if (is_empty parts.0) _) _ _ h1 in
      let (kid, (_, h3)) = bind-ok (ok_or _ (c.hex_decode parts.1.0)) _ _ h2 in
      let (_, (_, h4)) = bind-ok (fail_if (not (length kid == 4)) _) _ _ h3 in
      let (_, (_, h5)) = bind-ok (fail_if (ltb _ (byte_len parts.1.1)) _) _ _ h4 in
      let (decoded, (_, h6)) = bind-ok (ok_or _ (crates.base64_decode parts.1.1)) _ _ h5 in
      let (_, (e7, h7)) =
        bind-ok (fail_if (not (take 4 (c.sha256 (strip_type decoded)) =t kid)) _) _ _ h6 in
      let (key, (e8, h8)) = bind-ok (ok_or _ (crates.key_from_der (strip_type decoded))) _ _ h7 in
      let is = ok_injective _ _ h8 in
      record {
        same_kid = refl;
        spki = strip_type decoded;
        hashes = same_text _ _ (fail_if-ok _ _ _ e7) ∙ ap (λ x. x.kid) is;
        decodes = ok_or-ok _ _ _ e8 ∙ ap (λ x. some x.key) is;
        named = ap (λ x. is_empty x.name) (sym is) ∙ fail_if-ok _ _ _ e2;
      }

  insert-AllFit :
      (k : TrustedKey Key) (keys : KeyMap Key)
      → KeyFits k.kid k
      → AllFit keys
      → AllFit (insert k.kid k keys)
  insert-AllFit k keys fit fits kid found e = elim (Bool-cases (k.kid =t kid)) [
    | inl same ↦
        let at : some k ≡ some found = rw (lookup-insert k.kid kid k keys, same) at e in
        let is : k ≡ found = cc in rw (← is) (rw (← =t→≡ k.kid kid same) fit)
    | inr other ↦ fits kid found (rw (lookup-insert k.kid kid k keys, other) at e)
  ]

  add_parsed-AllFit :
      (t : Text) (keys : KeyMap Key)
      → AllFit keys
      → AllFit (add_parsed c crates (parse_c2sp_key c crates t) keys)
  add_parsed-AllFit t keys fits = elim (Result-cases (parse_c2sp_key c crates t)) [
    | inl (e, bad) ↦ rw bad fits
    | inr (k, good) ↦ rw good (insert-AllFit k keys (parse_c2sp_key-KeyFits t k good) fits)
  ]

  merge_parsed-AllFit :
      (t : Text) (keys : KeyMap Key)
      → AllFit keys
      → AllFit (merge_parsed c crates (parse_c2sp_key c crates t) keys)
  merge_parsed-AllFit t keys fits = elim (Result-cases (parse_c2sp_key c crates t)) [
    | inl (e, bad) ↦ rw bad fits
    | inr (k, good) ↦ elim (Option-cases (lookup k.kid keys)) [
      | inl free ↦ rw (good, free) (insert-AllFit k keys (parse_c2sp_key-KeyFits t k good) fits)
      | inr (old, taken) ↦ rw (good, taken) fits
    ]
  ]

  read_keys-AllFit :
      (ts : List Text) (keys : KeyMap Key) → AllFit keys → AllFit (read_keys c crates ts keys)
  unfolding read_keys
  read_keys-AllFit [] keys fits = fits
  read_keys-AllFit (t ∷ ts) keys fits =
      read_keys-AllFit ts (add_parsed c crates (parse_c2sp_key c crates t) keys)
        (add_parsed-AllFit t keys fits)

  merge_keys-AllFit :
      (ts : List Text) (keys : KeyMap Key) → AllFit keys → AllFit (merge_keys c crates ts keys)
  unfolding merge_keys
  merge_keys-AllFit [] keys fits = fits
  merge_keys-AllFit (t ∷ ts) keys fits =
      merge_keys-AllFit ts (merge_parsed c crates (parse_c2sp_key c crates t) keys)
        (merge_parsed-AllFit t keys fits)

  module _ {World : Type 0} (env : ScittEnv World) (config : KeyStoreConfig) where
    unfoldable pub run_refresh : RefreshCall → KeyState c crates env → KeyState c crates env
    run_refresh background s = (do_refresh c crates env config s).1
    run_refresh on_demand s = (refresh_if_cooldown_elapsed c crates env config s).1

    unfoldable pub run_refreshes : List RefreshCall → KeyState c crates env → KeyState c crates env
    unfolding run_refresh
    run_refreshes [] s = s
    run_refreshes (call ∷ calls) s = run_refreshes calls (run_refresh call s)

    -- What a refresh does to the keys: nothing, or a merge of fetched lines.
    do_refresh-keys :
        (w : World) (s : KeyStoreState Key)
        → ((do_refresh c crates env config (w, s)).1.1.snapshot ≡ s.snapshot)
          ⊎ ((ts : List Text) × ((do_refresh c crates env config (w, s)).1.1.snapshot.keys
                ≡ merge_keys c crates ts s.snapshot.keys))
    unfolding do_refresh merge_from from_keys
    do_refresh-keys w s = elim (Bool-cases config.has_client) [
      | inl fetches ↦ elim (Result-cases (env.fetch_root_keys w).0) [
        | inl (e, failed) ↦ rw (fetches, failed) (inl refl)
        | inr (ts, fetched) ↦ rw (fetches, fetched) (inr (ts, refl))
      ]
      | inr static ↦ rw static (inl refl)
    ]

    abbrev Step : KeyState c crates env → KeyState c crates env → Type 0
    Step s s' =
        (s'.1.snapshot ≡ s.1.snapshot)
        ⊎ ((ts : List Text) × (s'.1.snapshot.keys ≡ merge_keys c crates ts s.1.snapshot.keys))

    refreshed-Step :
        (s : KeyState c crates env) (r : Result ScittError (Unit {0}) × KeyState c crates env)
        → Step s r.1
        → Step s (refreshed c crates env r).1
    refreshed-Step s (err e, s') h = h
    refreshed-Step s (ok u, s') h = h

    run_refresh-Step :
        (call : RefreshCall) (s : KeyState c crates env) → Step s (run_refresh call s)
    unfolding run_refresh refresh_if_cooldown_elapsed
    run_refresh-Step background (w, s) = do_refresh-keys w s
    run_refresh-Step on_demand (w, s) =
        let P = λ (r : Result ScittError Bool × KeyState c crates env). Step (w, s) r.1 in
        if_either P (not config.has_client) _ _ (inl refl) (
          if_either P (not (should_refresh c crates env config w s.last_refreshed)) _ _ (inl refl)
            (refreshed-Step (w, s) (do_refresh c crates env config (w, s)) (do_refresh-keys w s)))

    Step-kept :
        (s s' : KeyState c crates env) (kid : List ℕ) (k : TrustedKey Key)
        → Step s s'
        → lookup kid s.1.snapshot.keys ≡ some k
        → lookup kid s'.1.snapshot.keys ≡ some k
    Step-kept s s' kid k (inl same) h = ap (λ x. lookup kid x.keys) same ∙ h
    Step-kept s s' kid k (inr (ts, merged)) h =
        ap (lookup kid) merged ∙ merge_keys-kept ts s.1.snapshot.keys kid k h

    Step-AllFit :
        (s s' : KeyState c crates env)
        → Step s s'
        → AllFit s.1.snapshot.keys
        → AllFit s'.1.snapshot.keys
    Step-AllFit s s' (inl same) fits kid k h =
        fits kid k (sym (ap (λ x. lookup kid x.keys) same) ∙ h)
    Step-AllFit s s' (inr (ts, merged)) fits kid k h =
        merge_keys-AllFit ts s.1.snapshot.keys fits kid k (sym (ap (lookup kid) merged) ∙ h)

    pub run_refreshes-kept :
        (calls : List RefreshCall) (s : KeyState c crates env) (kid : List ℕ) (k : TrustedKey Key)
        → lookup kid s.1.snapshot.keys ≡ some k
        → lookup kid (run_refreshes calls s).1.snapshot.keys ≡ some k
    unfolding run_refreshes
    run_refreshes-kept [] s kid k h = h
    run_refreshes-kept (call ∷ calls) s kid k h =
        run_refreshes-kept calls (run_refresh call s) kid k
          (Step-kept s (run_refresh call s) kid k (run_refresh-Step call s) h)

    run_refreshes-AllFit :
        (calls : List RefreshCall) (s : KeyState c crates env)
        → AllFit s.1.snapshot.keys
        → AllFit (run_refreshes calls s).1.snapshot.keys
    unfolding run_refreshes
    run_refreshes-AllFit [] s fits = fits
    run_refreshes-AllFit (call ∷ calls) s fits =
        run_refreshes-AllFit calls (run_refresh call s)
          (Step-AllFit s (run_refresh call s) (run_refresh-Step call s) fits)

    -- Whatever the client answers: in a key store that was read from key lines and then refreshed any
    -- number of times, in the background and on demand, every key that it had at first is found under
    -- its identifier unchanged, and every key stands under its own identifier, which is the start of
    -- the digest of an encoding of that key, and has a name.
    pub trusted_keys_kept :
        (key_strings : List Text) (store : ScittKeyStore Key) (w : World) (calls : List RefreshCall)
        → from_c2sp_keys c crates key_strings ≡ ok store
        → ((kid : List ℕ) (k : TrustedKey Key)
            → lookup kid store.keys ≡ some k
            → lookup kid (run_refreshes calls (w, initial store)).1.snapshot.keys ≡ some k)
          × AllFit (run_refreshes calls (w, initial store)).1.snapshot.keys
    unfolding from_c2sp_keys from_keys
    trusted_keys_kept key_strings store w calls h =
        let keys : read_keys c crates key_strings [] ≡ store.keys =
          elim (Bool-cases (is_empty (read_keys c crates key_strings []))) [
            | inl none_read ↦ absurd (cc (rw none_read at h))
            | inr read ↦ ap (λ x. x.keys) (ok_injective _ _ (rw read at h))
          ] in
        (
          run_refreshes-kept calls (w, initial store),
          run_refreshes-AllFit calls (w, initial store)
              (λ kid k e.
                read_keys-AllFit key_strings [] (λ kid' k' e'. absurd (nothing kid' k' e')) kid k
                  (ap (lookup kid) keys ∙ e)),
        )

    -- After keys were fetched, an on-demand refresh before the cooldown has passed reports that none
    -- was made and changes nothing: the client is not asked.
    pub refresh_waits :
        (w w' later : World) (s s' : KeyStoreState Key)
        → config.has_client ≡ true
        → do_refresh c crates env config (w, s) ≡ (ok tt, (w', s'))
        → leb_ℤ config.on_demand_cooldown_secs (env.unix_now later -ℤ env.unix_now w') ≡ false
        → refresh_if_cooldown_elapsed c crates env config (later, s') ≡ (ok false, (later, s'))
    unfolding do_refresh refresh_if_cooldown_elapsed
    refresh_waits w w' later s s' fetches h soon = elim (Result-cases (env.fetch_root_keys w).0) [
      | inl (e, failed) ↦ absurd (cc (ap (λ x. x.0) (rw (fetches, failed) at h)))
      | inr (ts, fetched) ↦
          let done = rw (fetches, fetched) at h in
          let at : s'.last_refreshed ≡ some (env.unix_now w') =
            sym (ap (λ x. x.1.1.last_refreshed) done) ∙ ap (λ x. some (env.unix_now x.1.0)) done in
          rw (fetches, at, soon) refl
    ]
