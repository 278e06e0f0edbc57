-- ===== src/Verify/Scitt/Steps.antt =====
-- One step of the verification of SCITT artifacts, with the cache and without it.
use ans_sdk_rust.Prelude.{
  ◌≡◌, refl, sym, ap, ◌∙◌, Bool, true, false, Option, none, some, Bool-cases, inl, inr,
}
use ans_sdk_rust.Error.{Result, ok, err, ScittError}
use ans_sdk_rust.Scitt.KeyStore.{KeyStoreState, refresh_if_cooldown_elapsed}
use ans_sdk_rust.Scitt.VerificationCache.{ScittVerificationCache}
use ans_sdk_rust.Verify.Scitt.{
  ScittSetup, Ctx, Verify, unknown_key, after_refresh, retry, put_if, if_live, through,
}
use ans_sdk_rust.Verify.Scitt.Caches.{ScittLaws, CacheValid, Holds}

module _ {Key World : Type 0} (d : ScittSetup Key World) where
  pub put_if-none :
      {A : Type 0} (live : Bool) (f : A → ScittVerificationCache d.m → ScittVerificationCache d.m)
      (r : Result ScittError A)
      → put_if d live f r none ≡ none
  put_if-none true f (ok a) = refl
  put_if-none true f (err e) = refl
  put_if-none false f (ok a) = refl
  put_if-none false f (err e) = refl

  pub if_live-none :
      {A : Type 0} (live : Bool) (find : ScittVerificationCache d.m → Option A)
      → if_live d live find none ≡ none
  if_live-none true find = refl
  if_live-none false find = refl

  module _ (laws : ScittLaws d) where
    pub put_if-Holds :
        {A : Type 0} (live : Bool) (f : A → ScittVerificationCache d.m → ScittVerificationCache d.m)
        (r : Result ScittError A) (cache : Option (ScittVerificationCache d.m))
        → ((a : A) (c : ScittVerificationCache d.m)
            → live ≡ true
            → r ≡ ok a
            → CacheValid d laws c
            → CacheValid d laws (f a c))
        → Holds d laws cache
        → Holds d laws (put_if d live f r cache)
    put_if-Holds true f (ok a) (some c) keeps h = keeps a c refl refl h
    put_if-Holds true f (ok a) none keeps h = h
    put_if-Holds true f (err e) (some c) keeps h = h
    put_if-Holds true f (err e) none keeps h = h
    put_if-Holds false f (ok a) (some c) keeps h = h
    put_if-Holds false f (ok a) none keeps h = h
    put_if-Holds false f (err e) (some c) keeps h = h
    put_if-Holds false f (err e) none keeps h = h

    module _ {A : Type 0} (verify : Verify d A) where
      -- If the cache may still be used, the keys in use are as before and the result was got with them.
      pub record Unrefreshed (ctx : Ctx Key World) (r : Result ScittError A) (ctx' : Ctx Key World)
          : Type 0 where
        pub snapshot : ctx'.snapshot ≡ ctx.snapshot
        pub result : r ≡ verify ctx.snapshot ctx.world
        pub live : ctx.live ≡ true

      abbrev IfLive : Ctx Key World → Result ScittError A × Ctx Key World → Type 0
      IfLive ctx answer = answer.1.live ≡ true → Unrefreshed ctx answer.0 answer.1

      after_refresh-IfLive :
          (ctx : Ctx Key World) (answer : Result ScittError Bool × (World × KeyStoreState Key))
          → IfLive ctx (after_refresh d verify (verify ctx.snapshot ctx.world) ctx answer)
      after_refresh-IfLive ctx (ok true, (w, keys)) live = absurd (cc live)
      after_refresh-IfLive ctx (ok false, (w, keys)) live = record {
        snapshot = refl;
        result = refl;
        live = live;
      }
      after_refresh-IfLive ctx (err e, (w, keys)) live = record {
        snapshot = refl;
        result = refl;
        live = live;
      }

      retry-IfLive : (ctx : Ctx Key World) → IfLive ctx (retry d verify ctx)
      unfolding retry
      retry-IfLive ctx = elim (Bool-cases (unknown_key (verify ctx.snapshot ctx.world))) [
        | inl unknown ↦ rw unknown (
            after_refresh-IfLive ctx (
              refresh_if_cooldown_elapsed d.crates.crypto d.crates.keys d.env d.key_config
                (ctx.world, ctx.keys)))
        | inr known ↦ rw known (λ live. record { snapshot = refl; result = refl; live = live })
      ]

      pub retry-known :
          (ctx : Ctx Key World) (a : A)
          → verify ctx.snapshot ctx.world ≡ ok a
          → retry d verify ctx ≡ (ok a, ctx)
      unfolding retry
      retry-known ctx a h = rw h refl

      module _ (put : World → A → ScittVerificationCache d.m → ScittVerificationCache d.m) where
        -- What the step gives with the cache, and without it.
        pub record StepAgrees (hit : Option A) (ctx : Ctx Key World)
            (cache : Option (ScittVerificationCache d.m)) : Type 0 where
          pub result : Result ScittError A
          pub ctx' : Ctx Key World
          pub cache' : Option (ScittVerificationCache d.m)
          pub with_cache : through d hit verify put (ctx, cache) ≡ (result, (ctx', cache'))
          pub without : through d none verify put (ctx, none) ≡ (result, (ctx', none))
          pub holds : Holds d laws cache'
          pub unrefreshed : ctx'.live ≡ true → Unrefreshed ctx result ctx'

        pub through-StepAgrees :
            (hit : Option A) (ctx : Ctx Key World) (cache : Option (ScittVerificationCache d.m))
            → ((a : A) → hit ≡ some a → verify ctx.snapshot ctx.world ≡ ok a)
            → ((w : World) (a : A) (c : ScittVerificationCache d.m)
                → ctx.live ≡ true
                → verify ctx.snapshot ctx.world ≡ ok a
                → CacheValid d laws c
                → CacheValid d laws (put w a c))
            → Holds d laws cache
            → StepAgrees hit ctx cache
        unfolding through
        through-StepAgrees (some a) ctx cache right keeps h =
            let fresh = retry-known ctx a (right a refl) in
            record {
              result = ok a;
              ctx' = ctx;
              cache' = cache;
              with_cache = refl;
              without =
                  ap (λ r. (r.0, (r.1, put_if d r.1.live (put r.1.world) r.0 none))) fresh
                  ∙ ap (λ c. (ok a, (ctx, c))) (put_if-none ctx.live (put ctx.world) (ok a));
              holds = h;
              unrefreshed =
                  λ live. record { snapshot = refl; result = sym (right a refl); live = live };
            }
        through-StepAgrees none ctx cache right keeps h =
            let answer = retry d verify ctx in
            record {
              result = answer.0;
              ctx' = answer.1;
              cache' = put_if d answer.1.live (put answer.1.world) answer.0 cache;
              with_cache = refl;
              without =
                  ap (λ c. (answer.0, (answer.1, c)))
                    (put_if-none answer.1.live (put answer.1.world) answer.0);
              holds =
                  put_if-Holds answer.1.live (put answer.1.world) answer.0 cache
                    (λ a c live done valid.
                      let un = retry-IfLive ctx live in
                      keeps answer.1.world a c un.live (sym un.result ∙ done) valid)
                    h;
              unrefreshed = retry-IfLive ctx;
            }

        pub through_fresh :
            (ctx : Ctx Key World) (a : A)
            → verify ctx.snapshot ctx.world ≡ ok a
            → through d none verify put (ctx, none) ≡ (ok a, (ctx, none))
        unfolding through
        through_fresh ctx a h =
            ap (λ r. (r.0, (r.1, put_if d r.1.live (put r.1.world) r.0 none))) (retry-known ctx a h)
            ∙ ap (λ c. (ok a, (ctx, c))) (put_if-none ctx.live (put ctx.world) (ok a))
