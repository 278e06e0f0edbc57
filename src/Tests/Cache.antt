-- ===== src/Tests/Cache.antt =====
-- The badge cache over a list.
use ans_sdk_rust.Prelude.{
  ◌≡◌, refl, true, List, [], ◌∷◌, none, lookup, contains, text_eq, insert, without, remove, ◌=t◌,
}
use ans_sdk_rust.Text.{to_lowercase}
use ans_sdk_rust.Types.Version.{Version, version_eq_instance}
use ans_sdk_rust.Cache.{
  CachedBadge, or_default, default_config, key_of, new, get_allow_stale, insert_for_fqdn_version,
  collect_for_fqdn, invalidate_fqdn, set_version_index,
}
use ans_sdk_rust.Cache.Invalidation.{
  Op, insert_host_op, apply, run, Covers-reachable, invalidate_fqdn_forgets,
  set_version_index_restricts,
}
use ans_sdk_rust.Tests.Data.{host, v1, badge}
use ans_sdk_rust.Tests.Store.{list_store, list_store-laws, key_eq}

abbrev v2 : Version
v2 = record { major = 2; minor = 0; patch = 0 }

abbrev ops : List Op
ops = insert_host_op 5 host v1 badge ∷ insert_host_op 6 host v2 badge ∷ []

abbrev stored : CachedBadge
stored = record { badge = badge; fetched_at = 6; ttl = 300 }

Covers-reachable_example :
    contains
      (or_default (
        lookup
          (to_lowercase host.name)
          (run list_store ops (new list_store default_config)).version_index))
      v2
    ≡ true
unfolding run apply insert_for_fqdn_version lookup insert key_eq new ◌=t◌ contains remove
Covers-reachable_example =
    Covers-reachable list_store list_store-laws default_config ops 7 host v2 stored refl

invalidate_fqdn_forgets_example :
    (get_allow_stale list_store 7
        (key_of host v1)
        (invalidate_fqdn list_store host (run list_store ops (new list_store default_config)))
      ≡ none)
    × (collect_for_fqdn list_store 7 host true
          (invalidate_fqdn list_store host (run list_store ops (new list_store default_config)))
        ≡ [])
invalidate_fqdn_forgets_example =
    invalidate_fqdn_forgets list_store list_store-laws default_config ops host 7 v1 true

set_version_index_restricts_example : contains (v2 ∷ []) v2 ≡ true
unfolding get_allow_stale set_version_index run apply insert_for_fqdn_version lookup without insert
    key_eq new ◌=t◌ contains remove
set_version_index_restricts_example =
    set_version_index_restricts list_store list_store-laws default_config ops host (v2 ∷ []) 7 v2
      stored refl
