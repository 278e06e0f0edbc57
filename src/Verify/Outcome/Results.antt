-- ===== src/Verify/Outcome/Results.antt =====
-- What is lost when an outcome is turned into a result.
use ans_sdk_rust.Prelude.{◌≡◌, ◌↔◌, true, Option, some, arith}
use ans_sdk_rust.Error.{ok}
use ans_sdk_rust.Types.Badge.{Badge}
use ans_sdk_rust.Verify.Outcome.{
  VerificationOutcome, is_success, badge_of, into_result, into_scitt_result,
}

-- An outcome becomes a result that carries a badge exactly when it is a success with that badge,
-- and becomes a result of the tiered verification that may carry none exactly when it is a
-- success with what badge there is.
pub into_results_iff :
    (o : VerificationOutcome) (b : Badge) (found : Option Badge)
    → ((into_result o ≡ ok b) ↔ ((is_success o ≡ true) × (badge_of o ≡ some b)))
      × ((into_scitt_result o ≡ ok found) ↔ ((is_success o ≡ true) × (badge_of o ≡ found)))
unfolding into_result into_scitt_result
into_results_iff o b found = ground arith
