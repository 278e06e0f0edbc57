-- ===== src/Tests/Keys.antt =====
-- Trusted keys on concrete keys.
use ans_sdk_rust.Prelude.{ℕ, ◌≡◌, refl, List, [], ◌∷◌, some, lookup, insert, ◌=t◌, text_eq}
use ans_sdk_rust.Prelude.Int.{pos}
use ans_sdk_rust.Text.{codes}
use ans_sdk_rust.Error.{ok}
use ans_sdk_rust.Scitt.Keys.{from_keys, get_key}
use ans_sdk_rust.Scitt.KeyStore.{initial}
use ans_sdk_rust.Scitt.Keys.{ScittKeyStore, TrustedKey, from_c2sp_keys, parse_c2sp_key}
use ans_sdk_rust.Scitt.Keys.Scope.{artifact_cache_key_injective}
use ans_sdk_rust.Scitt.KeyStore.{ScittEnv}
use ans_sdk_rust.Scitt.KeyStore.Kept.{
  background, on_demand, run_refreshes, AllFit, trusted_keys_kept,
}
use ans_sdk_rust.Tests.Data.{plain}
use ans_sdk_rust.Tests.Artifacts.{event_bytes}
use ans_sdk_rust.Tests.Artifacts.{
  framed, AnyArtifact, framed-NoCollisions, key_crates, key_crates-laws, store, store-StoreFits,
  key_config,
}
use ans_sdk_rust.Tests.Verified.{names}

artifact_cache_key_injective_example :
    (event_bytes ≡ event_bytes)
    × ((kid : List ℕ) → get_key framed key_crates store kid ≡ get_key framed key_crates store kid)
artifact_cache_key_injective_example =
    artifact_cache_key_injective framed key_crates AnyArtifact framed-NoCollisions key_crates-laws
      store store event_bytes event_bytes store-StoreFits store-StoreFits tt tt refl

-- A log that serves a key of a known identifier and a new one.
abbrev served_keys : ScittEnv ℕ
served_keys = record {
  unix_now = λ w. pos 150;
  fetch_root_keys =
      λ w. (ok (codes "other.example+abcd+abcdef" ∷ codes "tl.example.com+bcde+bcdefg" ∷ []), w);
}

abbrev trusted : ScittKeyStore ℕ
trusted =
    from_keys plain key_crates
      ((codes "abcd", record { name = codes "tl.example.com"; kid = codes "abcd"; key = 7 }) ∷ [])

keys_run : from_c2sp_keys plain key_crates (codes "tl.example.com+abcd+abcdef" ∷ []) ≡ ok trusted
unfolding from_c2sp_keys parse_c2sp_key names insert ◌=t◌
keys_run = refl

trusted_keys_kept_example :
    ((kid : List ℕ) (k : TrustedKey ℕ)
      → lookup kid trusted.keys ≡ some k
      → lookup kid
          (run_refreshes plain key_crates served_keys key_config
            (background ∷ on_demand ∷ [])
            (0, initial trusted)).1.snapshot.keys
        ≡ some k)
    × AllFit plain key_crates
        (run_refreshes plain key_crates served_keys key_config
          (background ∷ on_demand ∷ [])
          (0, initial trusted)).1.snapshot.keys
trusted_keys_kept_example =
    trusted_keys_kept plain key_crates served_keys key_config
      (codes "tl.example.com+abcd+abcdef" ∷ []) trusted 0 (background ∷ on_demand ∷ []) keys_run
