-- ===== src/Tests/Pop.antt =====
-- The replay cache.
use ans_sdk_rust.Prelude.{
  ◌≤◌, ◌≡◌, refl, true, List, [], ◌∷◌, length, lookup, insert, if◌then◌else◌, text_eq, ◌=t◌,
}
use ans_sdk_rust.Prelude.Int.{pos, ◌+ℤ◌, ltb_ℤ, leb_ℤ}
use ans_sdk_rust.Text.{codes}
use ans_sdk_rust.Error.{ok, err}
use ans_sdk_rust.Pop.Errors.{proof_stale}
use ans_sdk_rust.Pop.Replay.{new, check_and_store, evict}
use ans_sdk_rust.Pop.Replay.SingleUse.{
  Call, check_call, evict_call, run_calls, run_call, single_use,
}
use ans_sdk_rust.Pop.Replay.Bounded.{bounded}
use ans_sdk_rust.Pop.Replay.Reclaimed.{reclaimed}

abbrev calls : List Call
calls = check_call (pos 101) (codes "b") (pos 110) ∷ evict_call (pos 102) ∷ []

single_use_example :
    (check_and_store
      (pos 103)
      (codes "a")
      (pos 120)
      (run_calls calls (check_and_store (pos 100) (codes "a") (pos 105) (new 2)).1)).0
    ≡ (if leb_ℤ (pos 120) (pos 103) then err proof_stale else ok true)
unfolding check_and_store lookup insert
single_use_example =
    single_use (new 2) (codes "a") (pos 100) (pos 105) calls (pos 103) (pos 120) refl
      (refl, (refl, tt)) refl

bounded_example : length (run_calls calls (new 2)).index ≤ (new 2).max_entries
bounded_example = bounded 2 calls

reclaimed_example : ltb_ℤ (pos 103) (pos 110 +ℤ pos 5) ≡ true
unfolding run_calls check_and_store lookup insert evict run_call ◌=t◌
reclaimed_example = reclaimed 2 calls (pos 103) (codes "b") (pos 110) refl
