-- ===== src/Tests/Types.antt =====
-- Names, versions and fingerprints.
use ans_sdk_rust.Prelude.{◌≡◌, refl, arith}
use ans_sdk_rust.Text.{codes}
use ans_sdk_rust.Error.{ok}
use ans_sdk_rust.Types.AnsName
use ans_sdk_rust.Types.AnsName.{AnsName, ans_name_parse-to_string}
use ans_sdk_rust.Types.Fqdn
use ans_sdk_rust.Types.Fqdn.{IsWellFormed, new-IsWellFormed, new_of_IsWellFormed}
use ans_sdk_rust.Types.Version.{IsU32}
use ans_sdk_rust.Tests.Data.{host, v1}

v1-IsU32 : IsU32 v1
v1-IsU32 = record { major = omega arith; minor = omega arith; patch = omega arith }

host_parsed : Fqdn.new (codes "Agent.example.com.") ≡ ok host
unfolding Fqdn.new ans_sdk_rust.Text.split ans_sdk_rust.Text.trim_end Fqdn.label_ok
host_parsed = refl

host-IsWellFormed : IsWellFormed host
host-IsWellFormed = new-IsWellFormed (codes "Agent.example.com.") host host_parsed

new-IsWellFormed_example : IsWellFormed host
new-IsWellFormed_example = new-IsWellFormed (codes "Agent.example.com.") host host_parsed

abbrev agent : AnsName
agent = record { version = v1; fqdn = host }

ans_name_parse-to_string_example : AnsName.parse (AnsName.to_string agent) ≡ ok agent
ans_name_parse-to_string_example = ans_name_parse-to_string agent v1-IsU32 host-IsWellFormed
