-- ===== src/Tests/Artifacts.antt =====
-- Test data: stores of verified artifacts that forget nothing, crates that read a few structures, and
-- a status token and a receipt of an agent.
use ans_sdk_rust.Prelude.{
  ℕ, ◌≡◌, ◌⊎◌, ◌↔◌, inl, inr, refl, Bool, true, false, ◌&&◌, List, [], ◌∷◌, ◌++◌, length, Option,
  none, some, if◌then◌else◌, ◌==◌, ◌=t◌, =t_iff, Eq, text_eq, lookup, insert, lookup-insert,
  Bool-cases, arith, here, there, Any,
}
use ans_sdk_rust.Prelude.Int.{pos, negsuc}
use ans_sdk_rust.Text.{Text, codes}
use ans_sdk_rust.Error.{err, scitt_http_error}
use ans_sdk_rust.Types.Fingerprint.{Crypto}
use ans_sdk_rust.Scitt.Cbor.{Value, int, bytes, text, array, map_of, values_of, entries_of}
use ans_sdk_rust.Scitt.Headers.{ScittHeaders}
use ans_sdk_rust.Scitt.Keys.{KeyCrates, TrustedKey, ScittKeyStore, from_keys}
use ans_sdk_rust.Scitt.Keys.Scope.{NoCollisions, PointLaws, StoreFits, append_cancel}
use ans_sdk_rust.Scitt.KeyStore.{KeyStoreConfig, ScittEnv}
use ans_sdk_rust.Scitt.Status.{ScittCrates}
use ans_sdk_rust.Scitt.VerificationCache.{
  TtlStore, TtlLaws, Stores, StoresLaws, OutcomeKey, ScittVerificationCache,
}
use ans_sdk_rust.Verify.Scitt.Caches.{ClockLaws}
use ans_sdk_rust.Tests.Scitt.{agent_cert}
use ans_sdk_rust.Tests.Data.{digest}

abbrev option_eq : Option (List ℕ) → Option (List ℕ) → Bool
option_eq none none = true
option_eq (some a) (some b) = a =t b
option_eq _ _ = false

option_eq_iff : (a b : Option (List ℕ)) → (option_eq a b ≡ true) ↔ (a ≡ b)
option_eq_iff none none = ground arith
option_eq_iff none (some b) = ground arith
option_eq_iff (some a) none = ground arith
option_eq_iff (some a) (some b) = ground (arith, =t_iff a b)

unfoldable outcome_key_eq : OutcomeKey → OutcomeKey → Bool
outcome_key_eq a b =
    (a.cert_fingerprint_bytes =t b.cert_fingerprint_bytes)
    && ((a.token_hash =t b.token_hash) && option_eq a.receipt_hash b.receipt_hash)

outcome_key_eq_iff : (a b : OutcomeKey) → (outcome_key_eq a b ≡ true) ↔ (a ≡ b)
unfolding outcome_key_eq
outcome_key_eq_iff a b = ground (
  arith,
  =t_iff a.cert_fingerprint_bytes b.cert_fingerprint_bytes,
  =t_iff a.token_hash b.token_hash,
  option_eq_iff a.receipt_hash b.receipt_hash,
)

instance abbrev outcome_key_eq_instance : Eq OutcomeKey
outcome_key_eq_instance = record { beq = outcome_key_eq; beq_iff = outcome_key_eq_iff }

module _ {K V : Type 0} ⦃e : Eq K⦄ where
  abbrev pub list_of : TtlStore K V
  list_of = record {
    Store = List (K × V);
    find = λ t k s. lookup k s;
    store = λ t k v s. insert k v s;
  }

  pub list_of-TtlLaws : TtlLaws list_of
  list_of-TtlLaws = record { find-store = λ t u k j v w s h. found k j v w s h }
    where
      found :
          (k j : K) (v w : V) (s : List (K × V))
          → lookup j (insert k v s) ≡ some w
          → ((j ≡ k) × (w ≡ v)) ⊎ (lookup j s ≡ some w)
      found k j v w s h = elim (Bool-cases (e.beq k j)) [
        | inl same ↦ inl (ground (arith, e.beq_iff k j), ground (arith, h, lookup-insert k j v s))
        | inr other ↦ inr (ground (arith, h, lookup-insert k j v s))
      ]

abbrev pub lists : Stores
lists = record { tokens = list_of; receipts = list_of; outcomes = list_of }

pub lists-laws : StoresLaws lists
lists-laws = record {
  tokens = list_of-TtlLaws;
  receipts = list_of-TtlLaws;
  outcomes = list_of-TtlLaws;
}

abbrev pub nothing_verified : ScittVerificationCache lists
nothing_verified = record { token_cache = []; receipt_cache = []; outcome_cache = [] }

-- A digest that no two byte strings share.
abbrev pub framed : Crypto
framed = record {
  sha256 = λ b. length b ∷ b;
  sha512 = λ b. length b ∷ b;
  hex_decode = λ t. some t;
  hex_encode = λ b. b;
}

-- Any bytes may come under any keys.
abbrev pub AnyArtifact : List ℕ → List ℕ → Type 0
AnyArtifact scope b = Unit

pub framed-NoCollisions : NoCollisions framed AnyArtifact
framed-NoCollisions = record { nested = nested }
  where
    nested :
        (x b x' b' : List ℕ)
        → AnyArtifact x b
        → AnyArtifact x' b'
        → framed.sha256 (framed.sha256 x ++ b) ≡ framed.sha256 (framed.sha256 x' ++ b')
        → (x ≡ x') × (b ≡ b')
    nested x b x' b' o o' e =
        let same : length x ∷ (x ++ b) ≡ length x' ∷ (x' ++ b') = cc e in
        let sizes : length x ≡ length x' = cc same in
        let rest : x ++ b ≡ x' ++ b' = cc same in append_cancel x b x' b' sizes rest

abbrev zeros : List ℕ
zeros = codes "0000000000000000000000000000000000000000000000000000000000000000"

-- A point is its key, padded; the signature of key 7 is always right.
abbrev pub key_crates : KeyCrates ℕ
key_crates = record {
  base64_decode = λ t. some t;
  key_from_der = λ b. some 7;
  point = λ k. k ∷ zeros;
  signature_from_slice = λ b. some b;
  verify_p256_sha256 = λ k b s. k == 7;
}

pub key_crates-laws : PointLaws key_crates
key_crates-laws = record { point_size = λ k. refl; point_injective = λ k k' e. cc e }

abbrev kid : List ℕ
kid = codes "kid1"

abbrev header : List (Value × Value) → Value
header more = map_of (entries_of ((int (pos 1), int (negsuc 6)) ∷ (int (pos 4), bytes kid) ∷ more))

abbrev cose : ℕ → Value → List ℕ → Value
cose protected unprotected payload =
    array (values_of (bytes (protected ∷ []) ∷ unprotected ∷ bytes payload ∷ bytes zeros ∷ []))

abbrev entry : List ℕ → Value
entry fingerprint =
    map_of (entries_of ((int (pos 1), bytes fingerprint) ∷ (int (pos 2), text (codes "X509")) ∷ []))

abbrev certs : Value
certs = array (values_of (entry digest ∷ entry (31 ∷ agent_cert) ∷ []))

abbrev token_payload : Value
token_payload = map_of (
    entries_of (
      (int (pos 1), text (codes "id"))
      ∷ (int (pos 2), text (codes "ACTIVE"))
      ∷ (int (pos 3), int (pos 100))
      ∷ (int (pos 4), int (pos 200))
      ∷ (int (pos 5), text (codes "ans://v1.0.0.agent.example.com"))
      ∷ (int (pos 6), certs)
      ∷ (int (pos 7), certs)
      ∷ []))

abbrev proof_of_one : Value
proof_of_one = map_of (
    entries_of (
      (
        int (pos 396),
        map_of (
            entries_of (
              (int (negsuc 0), int (pos 1))
              ∷ (int (negsuc 1), int (pos 0))
              ∷ (int (negsuc 2), array (values_of []))
              ∷ [])),
      )
      ∷ []))

abbrev pub event_bytes : Text
event_bytes = codes "ans://v1.0.0.agent.example.com"

-- The structures that a first byte stands for.
abbrev structure : ℕ → Value
structure n =
    if n == 1
    then cose 2 (map_of (entries_of [])) (3 ∷ [])
    else if n == 2
    then header []
    else if n == 3
    then token_payload
    else if n == 4
    then cose 5 proof_of_one event_bytes
    else header ((int (pos 395), int (pos 1)) ∷ [])

abbrev read_structure : List ℕ → Option (Value × ℕ)
read_structure [] = none
read_structure (n ∷ rest) = some (structure n, 1)

abbrev pub scitt_crates : ScittCrates ℕ
scitt_crates = record {
  crypto = framed;
  cbor = record { from_reader = read_structure; into_writer = λ v. some [] };
  keys = key_crates;
  parse_uuid = λ t. some t;
}

abbrev pub key_1 : TrustedKey ℕ
key_1 = record { name = codes "tl.example.com"; kid = kid; key = 7 }

abbrev pub store : ScittKeyStore ℕ
store = from_keys framed key_crates ((kid, key_1) ∷ [])

pub store-StoreFits : StoreFits framed key_crates store
unfolding from_keys lookup ◌=t◌
store-StoreFits = record {
  stand = (record { own = refl; kid_size = refl; name_size = omega arith }, tt);
  found = found;
  scope = refl;
}
  where
    found :
        (e : List ℕ × TrustedKey ℕ)
        → Any (λ x. x ≡ e) ((kid, key_1) ∷ [])
        → lookup e.0 ((kid, key_1) ∷ []) ≡ some e.1
    found e (here at) = rw (← at) refl
    found e (there h) = elim h [ ]

-- It is the second 150 at all times, and no keys can be fetched.
abbrev pub scitt_env : ScittEnv ℕ
scitt_env = record { unix_now = λ w. pos 150; fetch_root_keys = λ w. (err scitt_http_error, w) }

pub scitt_env-laws : ClockLaws scitt_env
scitt_env-laws = record { in_range = λ w. refl }

abbrev pub key_config : KeyStoreConfig
key_config = record { has_client = true; on_demand_cooldown_secs = pos 300 }

abbrev pub artifacts : ScittHeaders
artifacts = record { receipt = some (4 ∷ []); status_token = some (1 ∷ []) }

abbrev pub no_artifacts : ScittHeaders
no_artifacts = record { receipt = none; status_token = none }
