-- ===== src/Pop/Htu.antt =====
-- crates/ans-verify/src/pop/proof.rs: the normal form of a request's URL, to which a proof is bound.
use ans_sdk_rust.Prelude.{
  ℕ, Bool, true, false, not, ◌||◌, ◌&&◌, [], ◌∷◌, ◌++◌, Option, none, some, if◌then◌else◌, ◌==◌,
  ◌=t◌, leb, any,
}
use ans_sdk_rust.Text.{Text, codes, is_empty, strip_prefix, to_lowercase}
use ans_sdk_rust.Error.{Result, ok, ◌>>=◌}
use ans_sdk_rust.Types.Version.{show_u32}
use ans_sdk_rust.Results.{ok_or, fail_if}
use ans_sdk_rust.Pop.Errors.{PopErrorKind, malformed_proof, http_binding_mismatch}
use ans_sdk_rust.Pop.Claims.{ProofPayload}
use ans_sdk_rust.Pop.Jws.{HtuUrl, ProofCrates}

-- `split_once("://")`, its second half.
unfoldable pub after_scheme : Text → Option Text
after_scheme [] = none
after_scheme (c ∷ s) =
    let rest = after_scheme s in
    elim (strip_prefix (codes "://") (c ∷ s)) [ some path ↦ some path | none ↦ rest ]

abbrev pub is_some {ℓ} : {A : Type ℓ} → Option A → Bool
is_some none = false
is_some (some a) = true

abbrev find_from : (ℕ → Bool) → Text → Text
find_from test [] = []
find_from test (c ∷ s) = let rest = find_from test s in if test c then c ∷ s else rest

abbrev up_to : (ℕ → Bool) → Text → Text
up_to test [] = []
up_to test (c ∷ s) = let rest = up_to test s in if test c then [] else c ∷ rest

abbrev pub ends_path : ℕ → Bool
ends_path c = c == b'?' || c == b'#'

abbrev starts_path : ℕ → Bool
starts_path c = c == b'/' || ends_path c

-- `is_ascii_control`, `is_ascii_whitespace` and the backslash.
abbrev is_bad : ℕ → Bool
is_bad c = leb c 32 || (c == 127 || c == 92)

abbrev is_http : Text → Bool
is_http scheme = scheme =t codes "http" || scheme =t codes "https"

abbrev host_port : Text → Text → Option ℕ → Text
host_port scheme host none = host
host_port scheme host (some port) =
    if (scheme =t codes "https" && port == 443) || (scheme =t codes "http" && port == 80)
    then host
    else host ++ b':' ∷ show_u32 port

abbrev of_url : HtuUrl → Result PopErrorKind (Text × Text)
of_url url = do
  host ← ok_or malformed_proof url.host
  _ ←
      fail_if
        (not (is_http (to_lowercase url.scheme))
          || (is_empty host || (not (is_empty url.username) || is_some url.password)))
        malformed_proof
  ok (to_lowercase url.scheme, host_port (to_lowercase url.scheme) (to_lowercase host) url.port)

abbrev root_if_empty : Text → Text
root_if_empty path = if is_empty path then b'/' ∷ [] else path

module _ {Key : Type 0} (crates : ProofCrates Key) where
  unfoldable pub parse_scheme_authority : Text → Result PopErrorKind (Text × Text)
  parse_scheme_authority raw_url = do
    _ ← fail_if (not (is_some (after_scheme raw_url)) || any is_bad raw_url) malformed_proof
    url ← ok_or malformed_proof (crates.parse_url raw_url)
    of_url url

  unfoldable pub normalize_htu : Text → Result PopErrorKind Text
  normalize_htu raw_url = do
    parts ← parse_scheme_authority raw_url
    rest ← ok_or malformed_proof (after_scheme raw_url)
    ok (
        parts.0
        ++ (codes "://"
            ++ (parts.1 ++ root_if_empty (up_to ends_path (find_from starts_path rest)))))

  unfoldable pub check_http_binding : ProofPayload → Text → Text → Result PopErrorKind (Unit {0})
  check_http_binding payload method raw_url = do
    _ ← fail_if (not (payload.htm =t method)) http_binding_mismatch
    want ← normalize_htu raw_url
    fail_if (not (payload.htu =t want)) http_binding_mismatch
