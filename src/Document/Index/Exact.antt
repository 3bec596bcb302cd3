-- ===== src/Document/Index/Exact.antt =====
-- A lookup of a whole tuple (`find_ids` of crates/document/src/index.rs without bounds) over a store
-- that keeps the contract of `KvStore`.
use dllb.Common.{
  ◌<◌, List, [], ◌∷◌, ◌++◌, Bytes, true, none, ◌≡◌, arith, append_assoc, ◌∙◌, sym, inl, inr, length,
  All-append_left, Member, Member-keep, starts_with-append,
}
use dllb.Common.Map.{range, in_range}
use dllb.Common.Utf8.{is_utf8}
use dllb.Core.{Value, ok, Result-cases}
use dllb.Storage.Key.{index_prefix}
use dllb.Storage.Key.PrefixEnd.{prefix_end, IsBytes, starts_with-range, before_end-ne}
use dllb.Storage.Kv.{KvStore, IsKvStore}
use dllb.Document.Encoding.{encode_index_value, encode_composite_key_part}
use dllb.Document.Encoding.Parts.{parts, encode_values, composite-eq, id_from_tuple}
use dllb.Document.Index.{ids_of_entries, find_ids, scan_start, scan_end}
use dllb.Document.Index.Lookup.{find_ids-eq, ids_complete, base_ends}

encode_values-length :
    (vs : List Value) (raws : List Bytes) → encode_values vs ≡ ok raws → length raws ≡ length vs
unfolding encode_values
encode_values-length [] raws h = ground arith
encode_values-length (v ∷ vs) raws h = elim (Result-cases (encode_index_value v)) [
  | inr (x, e) ↦ absurd (ground arith)
  | inl (raw, e) ↦ elim (Result-cases (encode_values vs)) [
    | inr (x, f) ↦ absurd (ground arith)
    | inl (rest, f) ↦ ground (arith, encode_values-length vs rest f)
  ]
]

module _ (kv : KvStore) (laws : IsKvStore kv) (ns db table name : Bytes) where
  open laws use {content}

  -- An entry of the values that are looked up is found.
  pub find_ids_exact :
      (s : kv.Store) (values : List Value) (part id v : Bytes)
      → encode_composite_key_part values ≡ ok part
      → 0 < length values
      → Member (index_prefix ns db table name ++ (part ++ id), v) (content s)
      → IsBytes (index_prefix ns db table name ++ (part ++ id))
      → is_utf8 id ≡ true
      → (ids : List Bytes) × (find_ids kv ns db table s name values none none (length values)
          ≡ ok ids)
        × Member id ids
  find_ids_exact s values part id v encoded some_values at bytes utf8 =
      elim (Result-cases (encode_values values)) [
        | inr (x, e) ↦ absurd (ground (arith, composite-eq values))
        | inl (raws, e) ↦
            let region = index_prefix ns db table name in
            let whole : part ≡ parts raws = ground (arith, composite-eq values) in
            let base = region ++ parts raws in
            let layout : region ++ (part ++ id) ≡ base ++ id =
              rw whole (sym (append_assoc region (parts raws) id)) in
            let hk : IsBytes (base ++ id) = rw layout at bytes in
            let hb = All-append_left (λ b. b < 256) base id hk in
            let n = encode_values-length values raws e in
            let end = prefix_end base in
            (
              ids_of_entries (length region) (length values) (range base end (content s)),
              unfold scan_start in
                  unfold scan_end in
                  find_ids-eq kv laws ns db table name values raws e none none s (length values),
              ids_complete (length region) (length values) id (base ++ id) v
                  (range base end (content s))
                  (unfold range in
                    (Member-keep (in_range base end) (base ++ id, v) (content s)).1 (
                      rw layout at at,
                      ground (
                        arith,
                        starts_with-range base (base ++ id) hb hk,
                        starts_with-append base id,
                        before_end-ne (base ++ id) end (base_ends ns db table name (parts raws) hb),
                      ),
                    ))
                  (rw (← n) (
                    rw (append_assoc region (parts raws) id)
                      (id_from_tuple region raws id (omega arith) ∙ ground arith))),
            )
      ]
