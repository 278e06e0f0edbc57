-- ===== src/Dns/Found.antt =====
-- What the lookup of badge records finds.
use ans_sdk_rust.Prelude.{
  ◌≡◌, ◌≢◌, ◌⊎◌, ◌↔◌, inl, inr, refl, sym, ap, ◌∙◌, Bool, List, [], ◌∷◌, Option, none, some,
}
use ans_sdk_rust.Text.{Text}
use ans_sdk_rust.Error.{Result, ok, err, ParseError, DnsError}
use ans_sdk_rust.Types.Fqdn.{Fqdn, ans_badge_name, ra_badge_name}
use ans_sdk_rust.Verify.Env.{BadgeRecord, DnsLookupResult, found, not_found}
use ans_sdk_rust.Dns.Txt.{parse_badge_record}
use ans_sdk_rust.Dns.Lookup.{
  parsed, of_records, of_strings, query_badge_txt, or_legacy, lookup_badge,
}

module _ {A : Type 0} (parse : Text → Result ParseError A) where
  -- The answer holds texts that parse to these records.
  abbrev Holds : Result DnsError (Option (List Text)) → List A → Type 0
  Holds answer rs = (ts : List Text) × ((answer ≡ ok (some ts)) × (parsed parse ts ≡ rs))

  -- The answer is no error and holds no record.
  abbrev Empty : Result DnsError (Option (List Text)) → Type 0
  Empty answer = (answer ≡ ok none) ⊎ Holds answer []

  of_records-found : (xs rs : List A) → (of_records xs ≡ found rs) ↔ ((rs ≢ []) × (xs ≡ rs))
  of_records-found [] rs = (λ e. absurd (cc e), λ (h, e). absurd (h (sym e)))
  of_records-found (x ∷ xs) rs = (λ e. ((λ e'. cc (e, e')), cc e), λ (h, e). ap found e)

  of_strings-found :
      (answer : Result DnsError (Option (List Text))) (rs : List A)
      → (of_strings parse answer ≡ ok (found rs)) ↔ ((rs ≢ []) × Holds answer rs)
  of_strings-found (err e) rs = (λ h. absurd (cc h), λ (_, (ts, (h, _))). absurd (cc h))
  of_strings-found (ok none) rs = (λ h. absurd (cc h), λ (_, (ts, (h, _))). absurd (cc h))
  of_strings-found (ok (some ts)) rs =
      let (sound, complete) = of_records-found (parsed parse ts) rs in
      (
        λ h. let (some_record, same) = sound (cc h) in (some_record, (ts, (refl, same))),
        λ (some_record, (ts', (h, same))).
            let is : ts ≡ ts' = cc h in ap ok (complete (some_record, ap (parsed parse) is ∙ same)),
      )

  of_records-none : (xs : List A) → of_records xs ≡ not_found → xs ≡ []
  of_records-none [] h = refl
  of_records-none (x ∷ xs) h = absurd (cc h)

  of_strings-Empty :
      (answer : Result DnsError (Option (List Text)))
      → of_strings parse answer ≡ ok not_found
      → Empty answer
  of_strings-Empty (err e) h = absurd (cc h)
  of_strings-Empty (ok none) h = inl refl
  of_strings-Empty (ok (some ts)) h = inr (ts, (refl, of_records-none (parsed parse ts) (cc h)))

  Empty-of_strings :
      (answer : Result DnsError (Option (List Text)))
      → Empty answer
      → of_strings parse answer ≡ ok not_found
  Empty-of_strings answer (inl h) = ap (of_strings parse) h
  Empty-of_strings answer (inr (ts, (h, e))) =
      ap (of_strings parse) h ∙ ap (λ x. ok (of_records x)) e

module _ {World : Type 0} (is_url : Text → Bool)
    (query : Text → World → Result DnsError (Option (List Text)) × World) (fqdn : Fqdn)
    (w : World) where
  abbrev Primary : Result DnsError (Option (List Text)) × World
  Primary = query (ans_badge_name fqdn) w

  -- The primary name's texts hold the records, or they hold none and the legacy name's do.
  abbrev pub Published : List BadgeRecord → Type 0
  Published rs =
      Holds (parse_badge_record is_url) Primary.0 rs
      ⊎ (Empty (parse_badge_record is_url) Primary.0
          × Holds (parse_badge_record is_url) (query (ra_badge_name fqdn) Primary.1).0 rs)

  -- The lookup of badge records finds some exactly when they are the records that the texts of the
  -- primary name parse to, malformed ones skipped, or the primary name has an answer without records
  -- and they are those of the legacy name, and there is at least one: an error at the primary name never
  -- leads to the legacy one.
  pub lookup_badge_iff :
      (rs : List BadgeRecord)
      → ((lookup_badge is_url query fqdn w).0 ≡ ok (found rs)) ↔ ((rs ≢ []) × Published rs)
  unfolding lookup_badge query_badge_txt
  lookup_badge_iff rs = (sound _ refl, complete)
    where
      parse : Text → Result ParseError BadgeRecord
      parse = parse_badge_record is_url

      sound :
          (first : Result DnsError (DnsLookupResult BadgeRecord))
          → of_strings parse Primary.0 ≡ first
          → (or_legacy is_url query fqdn (first, Primary.1)).0 ≡ ok (found rs)
          → (rs ≢ []) × Published rs
      sound (err e) at h = absurd (cc h)
      sound (ok (found xs)) at h =
          let (some_record, holds) = (of_strings-found parse Primary.0 rs).0 (at ∙ h) in
          (some_record, inl holds)
      sound (ok not_found) at h =
          let (some_record, holds) =
            (of_strings-found parse (query (ra_badge_name fqdn) Primary.1).0 rs).0 h in
          (some_record, inr (of_strings-Empty parse Primary.0 at, holds))

      complete :
          (rs ≢ []) × Published rs
          → (or_legacy is_url query fqdn (of_strings parse Primary.0, Primary.1)).0 ≡ ok (found rs)
      complete (some_record, inl holds) =
          rw ((of_strings-found parse Primary.0 rs).1 (some_record, holds)) refl
      complete (some_record, inr (empty, holds)) = rw (Empty-of_strings parse Primary.0 empty) (
          (of_strings-found parse (query (ra_badge_name fqdn) Primary.1).0 rs).1
            (some_record, holds))
