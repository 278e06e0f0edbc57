-- ===== src/Verify/Scitt/Tried.antt =====
-- With which keys, and when, a step of the verification of SCITT artifacts got its result.
use ans_sdk_rust.Prelude.{
  ◌≡◌, ◌⊎◌, inl, inr, refl, sym, ap, Bool, true, false, [], ◌∷◌, none, Bool-cases,
}
use ans_sdk_rust.Error.{Result, ok, err, ScittError}
use ans_sdk_rust.Results.{ok_or-ok}
use ans_sdk_rust.Scitt.Keys.{ScittKeyStore, get_key}
use ans_sdk_rust.Scitt.KeyStore.{KeyStoreState, refresh_if_cooldown_elapsed}
use ans_sdk_rust.Scitt.KeyStore.Kept.{on_demand, run_refreshes, run_refresh, run_refreshes-kept}
use ans_sdk_rust.Scitt.VerificationCache.{ScittVerificationCache}
use ans_sdk_rust.Verify.Scitt.{ScittSetup, Ctx, Verify, retry, after_refresh, unknown_key, through}
use ans_sdk_rust.Scitt.Reuse.{Knows}
use ans_sdk_rust.Verify.Scitt.Steps.{put_if-none}

module _ {Key World : Type 0} (d : ScittSetup Key World) where
  Knows-trans :
      (a b c : ScittKeyStore Key) → Knows d.crates a b → Knows d.crates b c → Knows d.crates a c
  Knows-trans a b c f g kid k h = g kid k (f kid k h)

  abbrev pub refresh :
      World → KeyStoreState Key → Result ScittError Bool × (World × KeyStoreState Key)
  refresh w keys =
      refresh_if_cooldown_elapsed d.crates.crypto d.crates.keys d.env d.key_config (w, keys)

  -- A refresh loses no key.
  refresh-Knows :
      (w : World) (keys : KeyStoreState Key)
      → Knows d.crates keys.snapshot (refresh w keys).1.1.snapshot
  unfolding get_key run_refreshes run_refresh
  refresh-Knows w keys kid k h =
      let kept =
        run_refreshes-kept d.crates.crypto d.crates.keys d.env d.key_config (on_demand ∷ [])
          (w, keys) kid k (ok_or-ok _ _ _ h) in
      rw kept refl

  module _ {A : Type 0} (verify : Verify d A) where
    -- A result that a step gives was got with keys that are known at its end.
    pub record Tried (ctx : Ctx Key World) (answer : Result ScittError A × Ctx Key World)
        : Type 0 where
      pub in_use : Knows d.crates answer.1.snapshot answer.1.keys.snapshot
      pub kept : Knows d.crates ctx.keys.snapshot answer.1.keys.snapshot
      pub got :
          (a : A)
          → answer.0 ≡ ok a
          → (s : ScittKeyStore Key) × (Knows d.crates s answer.1.keys.snapshot
              × ((w : World) × (((w ≡ ctx.world) ⊎ (w ≡ (refresh ctx.world ctx.keys).1.0))
                    × (verify s w ≡ ok a))))

    after_refresh-Tried :
        (ctx : Ctx Key World)
        → Knows d.crates ctx.snapshot ctx.keys.snapshot
        → (answer : Result ScittError Bool × (World × KeyStoreState Key))
        → refresh ctx.world ctx.keys ≡ answer
        → Knows d.crates ctx.keys.snapshot answer.1.1.snapshot
        → Tried ctx (after_refresh d verify (verify ctx.snapshot ctx.world) ctx answer)
    after_refresh-Tried ctx used (ok true, (w, keys)) e more = record {
      in_use = λ kid k h. h;
      kept = more;
      got = λ a h. (keys.snapshot, ((λ kid k x. x), (w, (inr (ap (λ x. x.1.0) (sym e)), h))));
    }
    after_refresh-Tried ctx used (ok false, (w, keys)) e more = record {
      in_use = Knows-trans ctx.snapshot ctx.keys.snapshot keys.snapshot used more;
      kept = more;
      got = λ a h. (
        ctx.snapshot,
        (
          Knows-trans ctx.snapshot ctx.keys.snapshot keys.snapshot used more,
          (ctx.world, (inl refl, h)),
        ),
      );
    }
    after_refresh-Tried ctx used (err x, (w, keys)) e more = record {
      in_use = Knows-trans ctx.snapshot ctx.keys.snapshot keys.snapshot used more;
      kept = more;
      got = λ a h. (
        ctx.snapshot,
        (
          Knows-trans ctx.snapshot ctx.keys.snapshot keys.snapshot used more,
          (ctx.world, (inl refl, h)),
        ),
      );
    }

    pub retry-Tried :
        (ctx : Ctx Key World)
        → Knows d.crates ctx.snapshot ctx.keys.snapshot
        → Tried ctx (retry d verify ctx)
    unfolding retry
    retry-Tried ctx used = elim (Bool-cases (unknown_key (verify ctx.snapshot ctx.world))) [
      | inl unknown ↦
          rw unknown (after_refresh-Tried ctx used _ refl (refresh-Knows ctx.world ctx.keys))
      | inr known ↦ rw known (record {
        in_use = used;
        kept = λ kid k h. h;
        got = λ a h. (ctx.snapshot, (used, (ctx.world, (inl refl, h))));
      })
    ]

    pub through_bare :
        (put : World → A → ScittVerificationCache d.m → ScittVerificationCache d.m)
        (ctx : Ctx Key World)
        → through d none verify put (ctx, none)
          ≡ ((retry d verify ctx).0, ((retry d verify ctx).1, none))
    unfolding through
    through_bare put ctx =
        let r = retry d verify ctx in
        ap (λ cache. (r.0, (r.1, cache))) (put_if-none d r.1.live (put r.1.world) r.0)
