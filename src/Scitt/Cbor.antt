-- ===== src/Scitt/Cbor.antt =====
-- The values of the crate ciborium, and crates/ans-verify/src/scitt's reading of their integers.
use ans_sdk_rust.Prelude.{
  ℕ, ◌^◌, Bool, false, List, [], ◌∷◌, Option, none, some, if◌then◌else◌, ltb,
}
use ans_sdk_rust.Prelude.Int.{ℤ, pos, negsuc, eq_ℤ}
use ans_sdk_rust.Text.{Text}

mutual
  -- A value of another kind, such as a float, is `other`.
  pub data Value : Type 0 where
    int : ℤ → Value
    bytes : List ℕ → Value
    text : Text → Value
    null other : Value
    array : Values → Value
    map_of : Entries → Value
    tag : ℕ → Value → Value

  pub data Values : Type 0 where
    nil : Values
    cons : Value → Values → Values

  pub data Entries : Type 0 where
    end : Entries
    entry : Value → Value → Entries → Entries

abbrev pub items : Values → List Value
items nil = []
items (cons v vs) = v ∷ items vs

abbrev pub pairs : Entries → List (Value × Value)
pairs end = []
pairs (entry k v es) = (k, v) ∷ pairs es

abbrev pub values_of : List Value → Values
values_of [] = nil
values_of (v ∷ vs) = cons v (values_of vs)

abbrev pub entries_of : List (Value × Value) → Entries
entries_of [] = end
entries_of ((k, v) ∷ es) = entry k v (entries_of es)

-- The crate ciborium: the first value of the bytes and the position after it; the bytes of a value.
pub record Cbor : Type 0 where
  pub from_reader : List ℕ → Option (Value × ℕ)
  pub into_writer : Value → Option (List ℕ)

abbrev in_i64 : ℤ → Option ℤ
in_i64 (pos n) = if ltb n (2 ^ 63) then some (pos n) else none
in_i64 (negsuc n) = if ltb n (2 ^ 63) then some (negsuc n) else none

-- `cbor_to_i64`
unfoldable pub cbor_to_i64 : Value → Option ℤ
cbor_to_i64 (int i) = in_i64 i
cbor_to_i64 _ = none

abbrev in_u64 : ℤ → Option ℕ
in_u64 (pos n) = if ltb n (2 ^ 64) then some n else none
in_u64 (negsuc n) = none

-- `cbor_to_u64`
unfoldable pub cbor_to_u64 : Value → Option ℕ
cbor_to_u64 (int i) = in_u64 i
cbor_to_u64 _ = none

abbrev is_int : Option ℤ → ℤ → Bool
is_int none i = false
is_int (some j) i = eq_ℤ j i

-- The key of an entry is an integer.
unfoldable pub has_label : ℤ → Value → Bool
unfolding cbor_to_i64
has_label i k = is_int (cbor_to_i64 k) i
