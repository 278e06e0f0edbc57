-- ===== src/Tests/Dane.antt =====
-- TLSA records.
use ans_sdk_rust.Prelude.{◌≡◌, ◌≢◌, ◌↔◌, true, [], ◌∷◌}
use ans_sdk_rust.Error.{ok}
use ans_sdk_rust.Dane.{required, from_rdata, matches_cert, verify_dane_cert}
use ans_sdk_rust.Dane.Soundness.{accepts, Admits, to_rdata, verify_dane_cert_iff, from_rdata_iff}
use ans_sdk_rust.Tests.Data.{plain, digest, host, cert, tlsa}

verify_dane_cert_iff_example :
    (accepts required (verify_dane_cert plain (tlsa ∷ []) cert required host 443) ≡ true)
    ↔ Admits (λ r. matches_cert plain r cert) required (tlsa ∷ [])
verify_dane_cert_iff_example = verify_dane_cert_iff plain (tlsa ∷ []) cert required host 443

from_rdata_iff_example :
    (from_rdata (3 ∷ 0 ∷ 1 ∷ digest) ≡ ok tlsa)
    ↔ ((to_rdata tlsa ≡ 3 ∷ 0 ∷ 1 ∷ digest) × (tlsa.certificate_data ≢ []))
from_rdata_iff_example = from_rdata_iff (3 ∷ 0 ∷ 1 ∷ digest) tlsa
