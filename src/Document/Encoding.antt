-- ===== src/Document/Encoding.antt =====
-- The sort-preserving encoding of crates/document/src/index.rs: values to bytes, the escape and
-- terminator that make a part of a key self-delimiting, and the id behind the parts.
pub mod Words
pub mod Escape
pub mod Parts
pub mod Order
use Prim.Native.Nat.{bit_xor}
use dllb.Common.{
  ℕ, zero, suc, ◌+◌, ◌-◌, ◌/◌, ◌%◌, ◌^◌, List, [], ◌∷◌, ◌++◌, Bytes, Bool, true, false, Option,
  none, some, leb, ◌==◌, if◌then◌else◌, drop,
}
use dllb.Common.Int.{ℤ, pos, negsuc}
use dllb.Common.Utf8.{from_utf8}
use dllb.Core.{Value, Result, ok, err, ◌>>=◌, index, type_not_indexable}

-- `u64::to_be_bytes`, of k bytes
unfoldable pub be_bytes : ℕ → ℕ → Bytes
be_bytes zero u = []
be_bytes (suc k) u = be_bytes k (u / 256) ++ (u % 256) ∷ []

-- `n as u64`, two's complement
abbrev pub as_u64 : ℤ → ℕ
as_u64 (pos n) = n % 2 ^ 64
as_u64 (negsuc n) = 2 ^ 64 - 1 - n % 2 ^ 64

unfoldable pub encode_i64 : ℤ → Bytes
unfolding be_bytes
encode_i64 n = be_bytes 8 (bit_xor (as_u64 n) (2 ^ 63))

-- over the bits of the float; `is_sign_negative` reads the highest
unfoldable pub encode_f64 : ℕ → Bytes
unfolding be_bytes
encode_f64 bits =
    be_bytes 8 (if leb (2 ^ 63) bits then 2 ^ 64 - 1 - bits else bit_xor bits (2 ^ 63))

unfoldable pub encode_index_value : Value → Result Bytes
unfolding encode_i64 encode_f64
encode_index_value (Value.string s) = ok s
encode_index_value (Value.int n) = ok (encode_i64 n)
encode_index_value (Value.float f) = ok (encode_f64 f)
encode_index_value (Value.bool b) = ok ((if b then 0x01 else 0x00) ∷ [])
encode_index_value other = err (index (type_not_indexable other))

-- TERM
abbrev pub term : Bytes
term = 0x00 ∷ 0x01 ∷ []

unfoldable pub escape_into : Bytes → Bytes → Bytes
escape_into [] out = out
escape_into (b ∷ raw) out =
    escape_into raw (if b == 0x00 then (out ++ b ∷ []) ++ 0xff ∷ [] else out ++ b ∷ [])

unfoldable pub encode_index_value_escaped : Value → Result Bytes
unfolding encode_index_value escape_into
encode_index_value_escaped value = do raw ← encode_index_value value; ok (escape_into raw [])

unfoldable pub encode_index_key_part : Value → Result Bytes
unfolding encode_index_value_escaped
encode_index_key_part value = do out ← encode_index_value_escaped value; ok (out ++ term)

-- the loop, with what it has written so far
unfoldable pub composite_into : List Value → Bytes → Result Bytes
unfolding encode_index_key_part
composite_into [] out = ok out
composite_into (v ∷ values) out = do
  part ← encode_index_key_part v
  composite_into values (out ++ part)

unfoldable pub encode_composite_key_part : List Value → Result Bytes
unfolding composite_into
encode_composite_key_part values = composite_into values []

-- the loop of `id_from_entry`, over what is left of the key
unfoldable pub walk : ℕ → ℕ → Bytes → Option Bytes
walk seen_terms field_count [] = none
walk seen_terms field_count (_ ∷ []) = none
walk seen_terms field_count (b ∷ c ∷ rest) =
    let escaped = walk seen_terms field_count rest in
    let next_field = walk (suc seen_terms) field_count rest in
    let next_byte = walk seen_terms field_count (c ∷ rest) in
    if b == 0x00
    then if c == 0xff
      then escaped
      else if c == 0x01
      then if suc seen_terms == field_count then from_utf8 rest else next_field
      else none
    else next_byte

unfoldable pub id_from_entry : Bytes → ℕ → ℕ → Option Bytes
unfolding walk
id_from_entry key region_len field_count = walk 0 field_count (drop region_len key)
