-- ===== src/Verify/Ans/Accepted.antt =====
-- What the artifacts of an accepted peer have, whatever its role.
use ans_sdk_rust.Prelude.{
  ℕ, List, ◌≡◌, ◌⊎◌, inl, inr, refl, sym, ap, ◌∙◌, Bool, true, false, Option, none, some,
  Bool-cases, arith,
}
use mathlib.Core.Path.{subst}
use ans_sdk_rust.Text.{Text}
use ans_sdk_rust.Cert.{CertIdentity}
use ans_sdk_rust.Types.Badge.{Badge}
use ans_sdk_rust.Scitt.Headers.{ScittHeaders, is_empty}
use ans_sdk_rust.Scitt.Keys.Scope.{NoCollisions, PointLaws}
use ans_sdk_rust.Scitt.KeyStore.{KeyStoreState}
use ans_sdk_rust.Scitt.VerificationCache.{StoresLaws}
use ans_sdk_rust.Verify.Outcome.{VerificationOutcome, is_success, badge_of}
use ans_sdk_rust.Verify.Scitt.{try_scitt_verification}
use ans_sdk_rust.Scitt.Reuse.{Fits}
use ans_sdk_rust.Verify.Scitt.Caches.{ScittLaws, Seen, Holds, ClockLaws}
use ans_sdk_rust.Verify.Scitt.Refines.{try_scitt_verification_refines}
use ans_sdk_rust.Verify.Scitt.Sound.{Checked, try_scitt_verification_sound}
use ans_sdk_rust.Verify.Scitt.Stored.{HasPeer}
use ans_sdk_rust.Verify.Ans.{
  ScittConfig, badge_with_scitt_enhancement, AnsCrates, AnsState, setup_of, scitt_state, try_scitt,
  or_missing, with_badge, enhance,
}

-- What is documented of the crates, and which artifacts occur, under the scope of which keys.
pub record CratesLaws {Key : Type 0} (d : AnsCrates Key) : Type 1 where
  pub stores : StoresLaws d.stores
  pub Occurs : List ℕ → List ℕ → Type 0
  pub collisions : NoCollisions d.crates.crypto Occurs
  pub points : PointLaws d.crates.keys
  pub clock : ClockLaws d.scitt

abbrev pub laws_of :
    {Key : Type 0} (d : AnsCrates Key)
    → CratesLaws d
    → (config : ScittConfig) → ScittLaws (setup_of d config)
laws_of d laws config = record {
  stores = laws.stores;
  Occurs = laws.Occurs;
  collisions = laws.collisions;
  points = laws.points;
  clock = laws.clock;
}

module _ {Key : Type 0} (d : AnsCrates Key) (laws : CratesLaws d) (config : ScittConfig)
    (keys : KeyStoreState Key) (cert : CertIdentity) (headers : ScittHeaders) (is_server : Bool)
    (dialed : Option Text) where
  -- The keys are well-formed, the artifacts of the headers occur, and the caches hold only what was verified.
  pub record Sane (s : AnsState d) : Type 0 where
    pub trusted : Fits d.crates keys.snapshot
    pub seen : Seen (setup_of d config) (laws_of d laws config) headers keys.snapshot
    pub caches : Holds (setup_of d config) (laws_of d laws config) s.scitt_verification_cache

  -- The answer accepts the peer by its artifacts, which were checked under the keys that the store
  -- ends with. `badge_run` is the verification by badge.
  pub record ByScitt (badge_run : VerificationOutcome × AnsState d) (s : AnsState d)
      (answer : VerificationOutcome × AnsState d) : Type 0 where
    pub badge : Option Badge
    pub bare : VerificationOutcome
    pub outcome : answer.0 ≡ with_badge d badge bare
    pub final : KeyStoreState Key
    pub store : answer.1.scitt_key_store ≡ some final
    pub world : d.env.World
    pub since : (world ≡ s.badges.world) ⊎ (world ≡ badge_run.1.badges.world)
    pub checked :
        Checked (setup_of d config) cert headers is_server dialed world keys final.snapshot bare
    pub by_badge :
        config.tier_policy ≡ badge_with_scitt_enhancement
        → (is_success badge_run.0 ≡ true) × (badge ≡ badge_of badge_run.0)

  module _ (peer : HasPeer (setup_of d config) is_server dialed) where
    -- The artifacts were checked.
    pub record Tried (s : AnsState d) (o : VerificationOutcome) : Type 0 where
      pub final : KeyStoreState Key
      pub store :
          (try_scitt d config keys cert headers is_server dialed s).1.scitt_key_store ≡ some final
      pub checked :
          Checked
            (setup_of d config)
            cert
            headers
            is_server
            dialed
            s.badges.world
            keys
            final.snapshot
            o

    pub try_scitt-Tried :
        (s : AnsState d) (o : VerificationOutcome)
        → Sane s
        → (try_scitt d config keys cert headers is_server dialed s).0 ≡ some o
        → is_success o ≡ true
        → Tried s o
    try_scitt-Tried s o sane e good =
        let setup = setup_of d config in
        let s0 = scitt_state d config keys s in
        let (same, (same_state, _)) =
          try_scitt_verification_refines setup (laws_of d laws config) cert headers is_server dialed
            s0 peer sane.trusted sane.seen sane.caches in
        let checked =
          try_scitt_verification_sound setup cert headers is_server dialed s.badges.world keys o
            (sym same ∙ e) good in
        record {
          final = (try_scitt_verification setup cert headers is_server dialed s0).1.keys;
          store = refl;
          checked =
              subst
                (λ k. Checked setup cert headers is_server dialed s.badges.world keys k.snapshot o)
                (sym (ap (λ x. x.keys) same_state)) checked;
        }

    pub or_missing-some :
        (found : Option VerificationOutcome)
        → is_success (or_missing d found) ≡ true
        → found ≡ some (or_missing d found)
    or_missing-some none good = absurd (cc good)
    or_missing-some (some o) good = refl

    pub with_badge-success :
        (badge : Option Badge) (o : VerificationOutcome)
        → is_success (with_badge d badge o) ≡ true
        → is_success o ≡ true
    with_badge-success badge o good = ground (arith, good)

    -- An outcome by badge that is raised by artifacts.
    pub enhance-ByScitt :
        (run : VerificationOutcome × AnsState d) (s : AnsState d)
        → Sane run.1
        → is_empty headers ≡ false
        → is_success
            (enhance d (try_scitt d config keys cert headers is_server dialed) headers run).0
          ≡ true
        → (is_success run.0 ≡ true)
          × ByScitt run s
              (enhance d (try_scitt d config keys cert headers is_server dialed) headers run)
    enhance-ByScitt run s sane full good = elim (Bool-cases (is_success run.0)) [
      | inr refused ↦ absurd (cc (rw refused at good, refused))
      | inl accepted ↦
          let found = (try_scitt d config keys cert headers is_server dialed run.1).0 in
          let passed =
            with_badge-success (badge_of run.0) (or_missing d found)
              (rw (accepted, full) at good) in
          let tried =
            try_scitt-Tried run.1 (or_missing d found) sane (or_missing-some found passed) passed in
          (
            accepted,
            rw (accepted, full)
                (record {
                  badge = badge_of run.0;
                  bare = or_missing d found;
                  outcome = refl;
                  final = tried.final;
                  store = tried.store;
                  world = run.1.badges.world;
                  since = inr refl;
                  checked = tried.checked;
                  by_badge = λ e. (accepted, refl);
                }),
          )
    ]
