-- ===== src/Examples/Lookups.antt =====
-- Index lookups on a store in memory.
use dllb.Common.{
  List, [], ◌∷◌, ◌++◌, Bytes, true, false, ◌&&◌, Option, some, ◌≡◌, ◌≢◌, refl, ◌↔◌, arith, inl,
  Member, length,
}
use dllb.Common.Map.{Map, in_range}
use dllb.Common.Map
use dllb.Common.Utf8.{is_utf8}
use dllb.Core.{Value, ok}
use dllb.Storage.Backend
use dllb.Storage.Key.{index_prefix}
use dllb.Storage.Key.PrefixEnd.{prefix_end, IsBytes}
use dllb.Document.Encoding.{encode_index_value, id_from_entry, encode_composite_key_part}
use dllb.Document.Encoding.Parts.{parts, encode_values}
use dllb.Document.Index.{RangeBound, scan_start, scan_end, scan_ids, ids_of_entries, find_ids}
use dllb.Document.Index.Scan.{meets_lower, meets_upper, behind, in_range-bounds}
use dllb.Document.Index.Lookup.{entry_key, find_ids_complete, find_ids_iff}
use dllb.Examples.Memory.{memory_store, memory_laws, memory_content}

abbrev ns : Bytes
ns = b'n' ∷ []

abbrev name : Bytes
name = b'i' ∷ []

-- the index `i` of the table `n.n.n` holds the text `m` for the record `a`
abbrev key_m : Bytes
key_m = entry_key ns ns ns name [] (b'm' ∷ []) [] (b'a' ∷ [])

abbrev indexed : Map Bytes
indexed = (key_m, []) ∷ []

abbrev from_k : Option RangeBound
from_k = some (Value.string (b'k' ∷ []), true)

abbrev to_p : Option RangeBound
to_p = some (Value.string (b'p' ∷ []), false)

find_ids_test : find_ids memory_store ns ns ns indexed name [] from_k to_p 1 ≡ ok ((b'a' ∷ []) ∷ [])
unfolding find_ids scan_start scan_end scan_ids ids_of_entries encode_composite_key_part
    index_prefix Backend.scan Backend.collect Backend.read_table Map.range prefix_end is_utf8
find_ids_test = refl

abbrev base : Bytes
base = index_prefix ns ns ns name

base-IsBytes : IsBytes base
unfolding index_prefix
base-IsBytes = omega arith

key_m-IsBytes : IsBytes key_m
unfolding index_prefix
key_m-IsBytes = omega arith

base_ends_test : prefix_end base ≢ []
unfolding index_prefix prefix_end
base_ends_test e = absurd (ground arith)

in_range-bounds_example :
    in_range {V = Bytes}
      (base ++ b'k' ∷ [])
      (base ++ b'p' ∷ [])
      (behind base (b'm' ∷ []) (b'a' ∷ []), [])
    ≡ (meets_lower from_k (Value.string (b'm' ∷ [])) && meets_upper to_p (Value.string (b'm' ∷ [])))
unfolding index_prefix scan_start scan_end encode_index_value
in_range-bounds_example =
    in_range-bounds base from_k to_p (Value.string (b'm' ∷ [])) (b'm' ∷ []) (b'a' ∷ [])
      (base ++ b'k' ∷ []) (base ++ b'p' ∷ []) [] base-IsBytes key_m-IsBytes base_ends_test tt tt
      refl refl refl

stored : Member (key_m, []) (memory_laws.content indexed)
stored = rw memory_content (inl refl)

find_ids_complete_example :
    (ids : List Bytes) × (find_ids memory_store ns ns ns indexed name [] from_k to_p 1 ≡ ok ids)
    × Member {A = Bytes} (b'a' ∷ []) ids
unfolding encode_values is_utf8 encode_index_value
find_ids_complete_example =
    find_ids_complete memory_store memory_laws ns ns ns name [] [] refl from_k to_p indexed
      (Value.string (b'm' ∷ [])) (b'm' ∷ []) [] (b'a' ∷ []) [] stored key_m-IsBytes refl refl tt tt
      refl refl

find_ids_iff_example :
    (start : Bytes) × (end : Bytes) × (scan_start (base ++ parts []) from_k ≡ ok start)
    × (scan_end (base ++ parts []) to_p ≡ ok end)
    × (Member {A = Bytes} (b'a' ∷ []) ((b'a' ∷ []) ∷ []) ↔ (
        (k : Bytes) × (v : Bytes) × Member (k, v) (memory_laws.content indexed)
        × (in_range start end (k, v) ≡ true)
        × (id_from_entry k (length base) 1 ≡ some (b'a' ∷ []))))
unfolding encode_values
find_ids_iff_example =
    find_ids_iff memory_store memory_laws ns ns ns name [] [] refl from_k to_p indexed 1
      ((b'a' ∷ []) ∷ []) (b'a' ∷ []) find_ids_test
