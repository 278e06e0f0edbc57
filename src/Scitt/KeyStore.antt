-- ===== src/Scitt/KeyStore.antt =====
-- crates/ans-verify/src/scitt/refreshable_key_store.rs: a store of trusted keys that is refreshed.
-- The client is a function of the world's state. Each lock makes a call one step.
pub mod Kept
use ans_sdk_rust.Prelude.{ℕ, Bool, true, false, not, List, Option, none, some, if◌then◌else◌}
use ans_sdk_rust.Prelude.Int.{ℤ, pos, ◌-ℤ◌, leb_ℤ}
use ans_sdk_rust.Text.{Text}
use ans_sdk_rust.Error.{Result, ok, err, ScittError}
use ans_sdk_rust.Types.Fingerprint.{Crypto}
use ans_sdk_rust.Scitt.Keys.{KeyCrates, ScittKeyStore, merge_from}

pub record KeyStoreState (Key : Type 0) : Type 0 where
  pub snapshot : ScittKeyStore Key
  pub last_refreshed : Option ℤ

-- `client.is_some()` and the cooldown. The default one is five minutes.
pub record KeyStoreConfig : Type 0 where
  pub has_client : Bool
  pub on_demand_cooldown_secs : ℤ

abbrev pub default_on_demand_cooldown : ℤ
default_on_demand_cooldown = pos 300

-- The client and the clock in Unix seconds.
pub record ScittEnv (World : Type 0) : Type 0 where
  pub unix_now : World → ℤ
  pub fetch_root_keys : World → Result ScittError (List Text) × World

-- `RefreshableKeyStore::new`, `with_cooldown` and `from_static`
abbrev pub initial : {Key : Type 0} → ScittKeyStore Key → KeyStoreState Key
initial store = record { snapshot = store; last_refreshed = none }

module _ {Key World : Type 0} (c : Crypto) (crates : KeyCrates Key) (env : ScittEnv World) where
  abbrev pub KeyState : Type 0
  KeyState = World × KeyStoreState Key

  abbrev merge_fetched :
      Result ScittError (List Text) × World
      → KeyStoreState Key
      → Result ScittError (Unit {0}) × KeyState
  merge_fetched (err e, w) s = (err e, (w, s))
  merge_fetched (ok key_strings, w) s = (
    ok tt,
    (
      w,
      record {
        snapshot = merge_from c crates s.snapshot key_strings;
        last_refreshed = some (env.unix_now w);
      },
    ),
  )

  unfoldable pub do_refresh : KeyStoreConfig → KeyState → Result ScittError (Unit {0}) × KeyState
  do_refresh config (w, s) =
      if not config.has_client then (ok tt, (w, s)) else merge_fetched (env.fetch_root_keys w) s

  abbrev pub should_refresh : KeyStoreConfig → World → Option ℤ → Bool
  should_refresh config w none = true
  should_refresh config w (some ts) = leb_ℤ config.on_demand_cooldown_secs (env.unix_now w -ℤ ts)

  abbrev pub refreshed : Result ScittError (Unit {0}) × KeyState → Result ScittError Bool × KeyState
  refreshed (err e, s) = (err e, s)
  refreshed (ok _, s) = (ok true, s)

  unfoldable pub refresh_if_cooldown_elapsed :
      KeyStoreConfig → KeyState → Result ScittError Bool × KeyState
  unfolding do_refresh
  refresh_if_cooldown_elapsed config (w, s) =
      if not config.has_client
      then (ok false, (w, s))
      else if not (should_refresh config w s.last_refreshed)
      then (ok false, (w, s))
      else refreshed (do_refresh config (w, s))
