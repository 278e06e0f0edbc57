-- ===== src/Dns/Parsed.antt =====
-- What the text of a badge record parses to.
use ans_sdk_rust.Prelude.{
  ℕ, ◌++◌, ◌≡◌, refl, ap, ◌∙◌, Bool, true, not, ◌&&◌, [], ◌∷◌, some, All, All-append, arith, ◌==◌,
}
use ans_sdk_rust.Text.{Text, codes, split, split_lem, split_last, strip_prefix, NoSep, NoSep-append}
use ans_sdk_rust.Error.{ok}
use ans_sdk_rust.Types.Version.{Version, IsU32, show_numbers, to_string, version_parse-to_string}
use ans_sdk_rust.Types.Version.{is_digit, show_u32, show_u32-All}
use ans_sdk_rust.Text.{is_whitespace, trim, trim_start, trim_space}
use ans_sdk_rust.Dns.Txt.{parse_badge_record}

-- A text with no space and no separator.
abbrev plain : ℕ → Bool
plain c = not (is_whitespace c) && not (c == b';')

abbrev pub Plain : Text → Type 0
Plain s = All (λ c. plain c ≡ true) s

abbrev pub Gap : Text → Type 0
Gap s = All (λ c. is_whitespace c ≡ true) s

Plain-NoSep : (s : Text) → Plain s → NoSep b';' s
Plain-NoSep [] h = tt
Plain-NoSep (c ∷ s) (p, h) = (ground (arith, p), Plain-NoSep s h)

Gap-NoSep : (s : Text) → Gap s → NoSep b';' s
Gap-NoSep [] h = tt
Gap-NoSep (c ∷ s) (p, h) = (ground (arith, p), Gap-NoSep s h)

trim_start-Plain : (s : Text) → Plain s → trim_start s ≡ s
trim_start-Plain [] h = refl
trim_start-Plain (c ∷ s) (p, h) = ground (arith, p)

trim_space-Plain : (s : Text) → Plain s → trim_space s ≡ s
trim_space-Plain [] h = refl
trim_space-Plain (c ∷ s) (p, h) = ground (arith, p, trim_space-Plain s h)

trim-Gap : (gap s : Text) → Gap gap → Plain s → trim (gap ++ s) ≡ s
trim-Gap [] s g h = ap trim_space (trim_start-Plain s h) ∙ trim_space-Plain s h
trim-Gap (c ∷ gap) s (p, g) h = rw p (trim-Gap gap s g h)

digits-Plain : (s : Text) → All (λ c. is_digit c ≡ true) s → Plain s
digits-Plain [] h = tt
digits-Plain (c ∷ s) (p, h) = (ground (arith, p), digits-Plain s h)

to_string-Plain : (v : Version) → Plain (to_string v)
unfolding to_string show_numbers
to_string-Plain v =
    let numbers = λ (n : ℕ). digits-Plain (show_u32 n) (show_u32-All n) in
    (
      refl,
      All-append (λ c. plain c ≡ true) (show_u32 v.major) _ (numbers v.major)
          (
            refl,
            All-append (λ c. plain c ≡ true) (show_u32 v.minor) _ (numbers v.minor)
                (refl, numbers v.patch),
          ),
    )

-- The text of a record, with the given spaces between its parts.
abbrev pub txt_of : Text → Text → Version → Text → Text
txt_of gap format_version version url =
    (codes "v=" ++ format_version)
    ++ b';'
      ∷ ((gap ++ (codes "version=" ++ to_string version)) ++ b';' ∷ (gap ++ (codes "url=" ++ url)))

-- The text of a badge record, with or without spaces after its separators, is parsed to that record, if
-- its version's numbers have 32 bits, its format version and its URL hold no space and no separator,
-- and the URL is one.
pub parse_badge_record-txt_of :
    (is_url : Text → Bool) (gap format_version : Text) (version : Version) (url : Text)
    → Gap gap
    → Plain format_version
    → IsU32 version
    → Plain url
    → is_url url ≡ true
    → parse_badge_record is_url (txt_of gap format_version version url)
      ≡ ok (record { format_version = format_version; version = some version; url = url })
unfolding parse_badge_record strip_prefix
parse_badge_record-txt_of is_url gap format_version version url g f n u valid =
    let a = codes "v=" ++ format_version in
    let b = codes "version=" ++ to_string version in
    let c = codes "url=" ++ url in
    let pa : Plain a = (refl, (refl, f)) in
    let pb : Plain b =
      (refl, (refl, (refl, (refl, (refl, (refl, (refl, (refl, to_string-Plain version)))))))) in
    let pc : Plain c = (refl, (refl, (refl, (refl, u)))) in
    let parts : split b';' (txt_of gap format_version version url)
        ≡ a ∷ (gap ++ b) ∷ (gap ++ c) ∷ [] =
      rw
        (
          split_lem b';' a _ (Plain-NoSep a pa),
          split_lem b';' (gap ++ b) _
              (NoSep-append b';' gap b (Gap-NoSep gap g) (Plain-NoSep b pb)),
          split_last b';' (gap ++ c) (NoSep-append b';' gap c (Gap-NoSep gap g) (Plain-NoSep c pc)),
        )
        refl in
    rw
      (
        parts,
        trim-Gap [] a tt pa,
        trim-Gap gap b g pb,
        trim-Gap gap c g pc,
        version_parse-to_string version n,
        valid,
      )
      refl
