-- ===== src/Tests/Caller.antt =====
-- The authentication of a caller on a concrete request.
use ans_sdk_rust.Prelude.{ℕ, text_eq, ◌≡◌, ◌≢◌, refl, List, [], ◌∷◌, none, some, lookup}
use ans_sdk_rust.Prelude.Int.{ℤ, pos}
use ans_sdk_rust.Text.{Text, codes, strip_suffix}
use ans_sdk_rust.Error.{Result, ok}
use ans_sdk_rust.Cert.{cert_ans_name}
use ans_sdk_rust.Pop.Errors.{PopErrorKind}
use ans_sdk_rust.Pop.Replay.{Inner, new}
use ans_sdk_rust.Pop.Jws.{ProofCrates}
use ans_sdk_rust.Pop.Artifacts.{
  VerifiedArtifactCache, status, store_status, receipt, store_receipt, proof_cert, store_proof_cert,
}
use ans_sdk_rust.Pop.Peers.{
  CallerIdentity, VerifyCallerOptions, default_options, normalize_authority, allowed_host,
  check_cert_host, check_allowed,
}
use ans_sdk_rust.Pop.Caller.{
  CallerSetup, CallerRequest, Cache, bind_caller, check_authority, preflight, verify_proof_with,
  verified_status_payload, verified_receipt, authenticate, verify_caller_with_content,
}
use ans_sdk_rust.Pop.Caller.Entries.{NoTextCollisions, CallerLaws, Holds}
use ans_sdk_rust.Pop.Caller.Refines.{Seen}
use ans_sdk_rust.Pop.Caller.Runs.{Served, run_requests, IsNew, Regular, run_requests_refines}
use ans_sdk_rust.Pop.Caller.Shown.{CallerShown}
use ans_sdk_rust.Pop.Caller.Sound.{verify_caller_sound}
use ans_sdk_rust.Pop.Caller.Replays.{run_requests_once}
use ans_sdk_rust.Tests.Data.{digest, identity_cert}
use ans_sdk_rust.Tests.Scitt.{read_leaf, payload, agent_cert}
use ans_sdk_rust.Tests.Proof.{header, proof, url, proof_run}
use ans_sdk_rust.Tests.Proof.{crates as proof_crates}
use ans_sdk_rust.Tests.Ans.{program}
use ans_sdk_rust.Tests.Artifacts.{
  list_of, list_of-TtlLaws, framed, AnyArtifact, framed-NoCollisions, key_crates-laws, scitt_crates,
  store, store-StoreFits, artifacts,
}

abbrev agent_proofs : ProofCrates Text
agent_proofs = record proof_crates {
  header_json = λ b. some (record header { x5c = agent_cert ∷ [] });
  identity_from_der = λ b. some identity_cert;
}

abbrev setup : CallerSetup ℕ Text
setup = record {
  m = record { statuses = list_of; receipts = list_of; certs = list_of };
  crates = scitt_crates;
  proofs = agent_proofs;
  parse_leaf = read_leaf;
}

abbrev AnyText : Text → Type 0
AnyText x5c = Unit

AnyText-NoTextCollisions : NoTextCollisions framed AnyText
AnyText-NoTextCollisions = record { plain = λ x y p q e. cc e }

abbrev setup-laws : CallerLaws setup
setup-laws = record {
  stores = record {
    statuses = list_of-TtlLaws;
    receipts = list_of-TtlLaws;
    certs = list_of-TtlLaws;
  };
  Occurs = AnyArtifact;
  Presented = AnyText;
  collisions = framed-NoCollisions;
  points = key_crates-laws;
  texts = AnyText-NoTextCollisions;
}

abbrev opts : VerifyCallerOptions
opts = record default_options {
  trusted_authorities = codes "agent.example.com:443" ∷ [];
  allowed_ans_names = codes "ans://v1.0.0.agent.example.com" ∷ [];
}

abbrev no_entries : VerifiedArtifactCache setup.m
no_entries = record { status_tokens = []; receipts = []; proof_certs = [] }

abbrev caller : CallerIdentity
caller = record {
  ans_name = payload.ans_name;
  agent_id = codes "id";
  fingerprint = record { bytes = framed.sha256 agent_cert };
  jkt = framed.sha256 (
      codes
        "{\"crv\":\"P-256\",\"kty\":\"EC\",\"x\":\"0123456789abcdef0123456789abcdef\",\"y\":\"0123456789abcdef0123456789abcdef\"}");
}

abbrev request : CallerRequest ℕ
request = record {
  proof_jws = proof;
  headers = artifacts;
  method = codes "POST";
  raw_url = url;
  keys = store;
  opts = opts;
}

abbrev run :
    ℤ → ℤ → Cache setup × Inner → Result PopErrorKind CallerIdentity × (Cache setup × Inner)
run clock end s = verify_caller_with_content setup clock end request (ok digest) s

caller_run : Unit {0}
unfolding program proof_run verify_caller_with_content preflight check_authority authenticate
    verify_proof_with verified_status_payload verified_receipt bind_caller check_cert_host
    check_allowed allowed_host normalize_authority strip_suffix status store_status receipt
    store_receipt proof_cert store_proof_cert cert_ans_name
caller_run = tt

first_run : (run (pos 150) (pos 151) (some no_entries, new 3)).0 ≡ ok caller
unfolding caller_run
first_run = refl

no_entries-Holds : Holds setup setup-laws (some no_entries)
unfolding lookup
no_entries-Holds = record {
  statuses = λ t k p e. cc e;
  receipts = λ t k r e. cc e;
  certs = λ t k leaf e. cc e;
}

all-Seen : Seen setup setup-laws request
all-Seen = record { token = λ b e. tt; receipt = λ b e. tt; cert = λ text e. tt }

verify_caller_sound_example :
    CallerShown setup
      (pos 150)
      (pos 151)
      request
      (ok digest)
      (new 3)
      caller
      (run (pos 150) (pos 151) (some no_entries, new 3)).1.1
verify_caller_sound_example =
    verify_caller_sound setup setup-laws (pos 150) (pos 151) request (ok digest) (some no_entries)
      (new 3) caller store-StoreFits all-Seen no_entries-Holds first_run

no_entries-IsNew : IsNew setup no_entries
unfolding lookup
no_entries-IsNew = record { statuses = λ t k. refl; receipts = λ t k. refl; certs = λ t k. refl }

abbrev requests : List (Served ℕ)
requests =
    record { clock = pos 150; end = pos 151; request = request; content = ok digest }
    ∷ record { clock = pos 155; end = pos 400; request = request; content = ok digest }
    ∷ []

run_requests_refines_example :
    ((run_requests setup requests (some no_entries, new 3)).0
      ≡ (run_requests setup requests (none, new 3)).0)
    × ((run_requests setup requests (some no_entries, new 3)).1.1
        ≡ (run_requests setup requests (none, new 3)).1.1)
run_requests_refines_example =
    run_requests_refines setup setup-laws requests no_entries (new 3) no_entries-IsNew
      ((store-StoreFits, all-Seen), ((store-StoreFits, all-Seen), tt))

abbrev first : Served ℕ
first = record { clock = pos 150; end = pos 151; request = request; content = ok digest }

abbrev between : Served ℕ
between = record {
  clock = pos 152;
  end = pos 153;
  request = record request { raw_url = [] };
  content = ok digest;
}

abbrev replayed : Served ℕ
replayed = record {
  clock = pos 155;
  end = pos 400;
  request = record request { method = codes "GET" };
  content = ok digest;
}

replayed-Regular : Regular setup setup-laws replayed
replayed-Regular =
    (store-StoreFits, record { token = λ b e. tt; receipt = λ b e. tt; cert = λ text e. tt })

between-Regular : Regular setup setup-laws between
between-Regular =
    (store-StoreFits, record { token = λ b e. tt; receipt = λ b e. tt; cert = λ text e. tt })

run_requests_once_example :
    (verify_caller_with_content setup
      (pos 155)
      (pos 400)
      replayed.request
      (ok digest)
      (run_requests setup (between ∷ []) (run (pos 150) (pos 151) (some no_entries, new 3)).1).1).0
    ≢ ok caller
run_requests_once_example =
    run_requests_once setup setup-laws first replayed (between ∷ []) (some no_entries) (new 3)
      caller caller no_entries-Holds (store-StoreFits, all-Seen) replayed-Regular
      (between-Regular, tt) (record { proof = refl; window = refl }) (refl, tt) first_run
