-- ===== src/Verify/Order.antt =====
-- crates/ans-verify/src/verify.rs: badge records from the newest version to the oldest.
pub mod Sorted
use ans_sdk_rust.Prelude.{
  Bool, true, false, List, [], ◌∷◌, Option, none, some, sort_by, if◌then◌else◌, text_eq,
}
use ans_sdk_rust.Text.{Text}
use ans_sdk_rust.Error.{ok, err}
use ans_sdk_rust.Types.Badge.{Badge, agent_version}
use ans_sdk_rust.Types.Version
use ans_sdk_rust.Types.Version.{Version, version_lt}
use ans_sdk_rust.Verify.Env.{BadgeRecord}

-- `b.version.cmp(&a.version)` is `Less`: `None` is below every version.
abbrev pub newer : Option Version → Option Version → Bool
newer (some b) (some a) = version_lt a b
newer (some b) none = true
newer none a = false

abbrev pub newer_record : BadgeRecord → BadgeRecord → Bool
newer_record s r = newer s.version r.version

-- `sort_by(|a, b| b.version.cmp(&a.version))`
unfoldable pub sort_newest : List BadgeRecord → List BadgeRecord
unfolding sort_by
sort_newest rs = sort_by newer_record rs

-- `filter_map(|r| r.version().cloned())`
abbrev pub versions_of : List BadgeRecord → List Version
versions_of [] = []
versions_of (r ∷ rs) = elim r.version [ none ↦ versions_of rs | some v ↦ v ∷ versions_of rs ]

abbrev parsed_version : Text → Option Version
parsed_version text = elim (Version.parse text) [ ok v ↦ some v | err e ↦ none ]

-- The version under which a fetched badge is cached.
abbrev pub version_for : BadgeRecord → Badge → Option Version
version_for r badge = elim r.version [
  | some v ↦ some v
  | none ↦ parsed_version (agent_version badge)
]
