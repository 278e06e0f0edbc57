-- ===== src/Types/AnsName.antt =====
-- crates/ans-types/src/types.rs: `AnsName`, the URI `ans://v<major>.<minor>.<patch>.<fqdn>`.
use ans_sdk_rust.Prelude.{
  ◌≡◌, Bool, false, ◌==◌, arith, List, [], ◌∷◌, ◌++◌, Option, none, some, if◌then◌else◌, ap, ◌∙◌,
}
use mathlib.Core.List.{append_assoc}
use ans_sdk_rust.Text.{Text, codes, splitn, splitn_lem, strip_prefix, strip_prefix-append}
use ans_sdk_rust.Error.{Result, ok, err, ◌>>=◌, ParseError, invalid_ans_name}
use ans_sdk_rust.Types.Fqdn
use ans_sdk_rust.Types.Fqdn.{Fqdn, IsWellFormed, new_of_IsWellFormed}
use ans_sdk_rust.Types.Version
use ans_sdk_rust.Types.Version.{
  Version, IsU32, show_u32, show_u32-NoSep, version_parse-to_string as version_lem, show_numbers,
}

pub record AnsName : Type 0 where
  pub version : Version
  pub fqdn : Fqdn

abbrev starts_with_v : Text → Bool
starts_with_v [] = false
starts_with_v (c ∷ s) = c == b'v'

-- The four parts of `splitn(4, '.')`.
abbrev of_parts : List Text → Result ParseError AnsName
of_parts (a ∷ b ∷ c ∷ host ∷ []) = do
  version ← Version.parse (a ++ b'.' ∷ (b ++ b'.' ∷ c))
  fqdn ← Fqdn.new host
  ok (record { version = version; fqdn = fqdn })
of_parts _ = err invalid_ans_name

abbrev of_rest : Option Text → Result ParseError AnsName
of_rest none = err invalid_ans_name
of_rest (some rest) =
    if starts_with_v rest then of_parts (splitn 4 b'.' rest) else err invalid_ans_name

-- `AnsName::parse`
unfoldable pub parse : Text → Result ParseError AnsName
parse uri = of_rest (strip_prefix (codes "ans://") uri)

unfoldable pub to_string : AnsName → Text
to_string n = codes "ans://" ++ (Version.to_string n.version ++ b'.' ∷ n.fqdn.name)

abbrev show_parts : Version → Text × Text × Text
show_parts v = (show_u32 v.major, show_u32 v.minor, show_u32 v.patch)

to_string_parts :
    (v : Version) (host : Text)
    → Version.to_string v ++ b'.' ∷ host
      ≡ (b'v' ∷ show_u32 v.major)
        ++ b'.' ∷ (show_u32 v.minor ++ b'.' ∷ (show_u32 v.patch ++ b'.' ∷ host))
unfolding show_numbers Version.to_string
to_string_parts v host = simp append_assoc

splitn-to_string :
    (v : Version) (host : Text)
    → splitn 4 b'.' (Version.to_string v ++ b'.' ∷ host)
      ≡ (b'v' ∷ show_u32 v.major) ∷ show_u32 v.minor ∷ show_u32 v.patch ∷ host ∷ []
unfolding splitn
splitn-to_string v host =
    let (a, b, c) = show_parts v in
    let tail = c ++ b'.' ∷ host in
    ap (splitn 4 b'.') (to_string_parts v host)
    ∙ splitn_lem 2 b'.' (b'v' ∷ a) (b ++ b'.' ∷ tail) (ground arith, show_u32-NoSep v.major)
    ∙ ap (◌∷◌ (b'v' ∷ a)) (splitn_lem 1 b'.' b tail (show_u32-NoSep v.minor))
    ∙ ap (λ ps. (b'v' ∷ a) ∷ b ∷ ps) (splitn_lem 0 b'.' c host (show_u32-NoSep v.patch))

of_parts_lem :
    (n : AnsName)
    → IsU32 n.version
    → IsWellFormed n.fqdn
    → of_parts (
        (b'v' ∷ show_u32 n.version.major)
        ∷ show_u32 n.version.minor
        ∷ show_u32 n.version.patch
        ∷ n.fqdn.name
        ∷ [])
      ≡ ok n
unfolding show_numbers Version.to_string
of_parts_lem n h k = rw (version_lem n.version h, new_of_IsWellFormed n.fqdn k)

-- An ANS name with a well-formed host and a version within `u32` is parsed back from its text.
pub ans_name_parse-to_string :
    (n : AnsName) → IsU32 n.version → IsWellFormed n.fqdn → parse (to_string n) ≡ ok n
unfolding parse to_string Version.to_string
ans_name_parse-to_string n h k =
    let (a, b, c) = show_parts n.version in
    let shown = Version.to_string n.version ++ b'.' ∷ n.fqdn.name in
    ap of_rest (strip_prefix-append (codes "ans://") shown)
    ∙ ap of_parts (splitn-to_string n.version n.fqdn.name)
    ∙ of_parts_lem n h k
