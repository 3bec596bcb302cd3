-- ===== src/Document/Index/Lookup.antt =====
-- `find_ids` of crates/document/src/index.rs over a store that keeps the contract of `KvStore`.
use dllb.Common.{
  ℕ, suc, ◌+◌, ◌<◌, List, [], ◌∷◌, ◌++◌, Bytes, true, Option, none, some, ◌≡◌, ◌≢◌, refl, arith,
  append_assoc, ◌∙◌, ap, sym, inl, inr, ◌⊎◌, length, length-append, All, All-append_left,
  All-append_right, Bool-cases, Option-cases, ◌↔◌, Member, Member-keep,
}
use dllb.Common.Order.{lex_le, lex_le-lt_trans, lex_lt_asymm}
use dllb.Common.Map.{Map, range, in_range}
use dllb.Common.Utf8.{from_utf8, is_utf8}
use dllb.Core.{Value, ok, ◌>>=◌, Result-cases}
use dllb.Storage.Key.{index_prefix, table_prefix, tag_index}
use dllb.Storage.Key.PrefixEnd.{prefix_end, prefix_end-nil, IsBytes}
use dllb.Storage.Kv.{KvStore, IsKvStore}
use dllb.Document.Encoding.{encode_index_value, id_from_entry}
use dllb.Document.Encoding.Escape.{escape}
use dllb.Document.Encoding.Parts.{parts, encode_values, composite-eq, parts-append, id_from_tuple}
use dllb.Document.Index.{RangeBound, scan_start, scan_end, scan_ids, ids_of_entries, find_ids}
use dllb.Document.Index.Scan.{
  meets_lower, meets_upper, ComparableBound, behind, lower_selects, upper_selects,
  scan_start_returns, scan_end_returns,
}

range-nil : (start end : Bytes) (m : Map Bytes) → lex_le end start ≡ true → range start end m ≡ []
unfolding range
range-nil start end [] h = refl
range-nil start end ((k, v) ∷ m) h =
    ground (arith, range-nil start end m h, lex_le-lt_trans start k end)

module _ (len n : ℕ) (k v : Bytes) (m : Map Bytes) where
  ids-none :
      id_from_entry k len n ≡ none → ids_of_entries len n ((k, v) ∷ m) ≡ ids_of_entries len n m
  unfolding ids_of_entries
  ids-none e = rw (e, ids_of_entries)

  ids-some :
      (id : Bytes)
      → id_from_entry k len n ≡ some id
      → ids_of_entries len n ((k, v) ∷ m) ≡ id ∷ ids_of_entries len n m
  unfolding ids_of_entries
  ids-some id e = rw (e, ids_of_entries)

ids-nil : (len n : ℕ) → ids_of_entries len n [] ≡ []
unfolding ids_of_entries
ids-nil len n = refl

pub ids_complete :
    (len n : ℕ) (id k v : Bytes) (m : Map Bytes)
    → Member (k, v) m
    → id_from_entry k len n ≡ some id
    → Member id (ids_of_entries len n m)
ids_complete len n id k v [] h e = absurd h
ids_complete len n id k v ((j, w) ∷ m) (inl same) e =
    rw
      (ids-some len n j w m id (
        ap (λ (x : Bytes). id_from_entry x len n) (ap (λ (x : Bytes × Bytes). x.0) (sym same)) ∙ e))
      (inl refl)
ids_complete len n id k v ((j, w) ∷ m) (inr later) e =
    let rest = ids_complete len n id k v m later e in
    elim (Option-cases (id_from_entry j len n)) [
      | inl f ↦ rw (ids-none len n j w m f) rest
      | inr (found, f) ↦ rw (ids-some len n j w m found f) (inr rest)
    ]

abbrev Source : ℕ → ℕ → Bytes → Map Bytes → Type 0
Source len n id m = (k : Bytes) × (v : Bytes) × Member (k, v) m × (id_from_entry k len n ≡ some id)

ids_sound :
    (len n : ℕ) (id : Bytes) (m : Map Bytes)
    → Member id (ids_of_entries len n m)
    → Source len n id m
ids_sound len n id [] h = absurd (unfold ids_of_entries in h)
ids_sound len n id ((k, v) ∷ m) h = elim (Option-cases (id_from_entry k len n)) [
  | inl f ↦
      let (j, w, at, e) = ids_sound len n id m (rw (ids-none len n k v m f) at h) in
      (j, w, inr at, e)
  | inr (found, f) ↦ later (ids_sound len n id m) found f (rw (ids-some len n k v m found f) at h)
]
  where
    later :
        (Member id (ids_of_entries len n m) → Source len n id m)
        → (found : Bytes) → id_from_entry k len n ≡ some found
        → (id ≡ found) ⊎ Member id (ids_of_entries len n m)
        → Source len n id ((k, v) ∷ m)
    later recur found f (inl same) = (k, v, inl refl, f ∙ ap some (sym same))
    later recur found f (inr there) = let (j, w, at, e) = recur there in (j, w, inr at, e)

module _ (kv : KvStore) (laws : IsKvStore kv) (ns db table : Bytes) where
  open laws use {content, scan-eq}

  scan_ids-eq :
      (s : kv.Store) (len n : ℕ) (start end : Bytes)
      → scan_ids kv ns db table s len n start end
        ≡ ok (ids_of_entries len n (range start end (content s)))
  unfolding scan_ids
  scan_ids-eq s len n start end = elim (Bool-cases (lex_le end start)) [
    | inl t ↦ rw (range-nil start end (content s) t) (ground (arith, ids-nil len n))
    | inr f ↦ ground (arith, scan-eq s start end, lex_lt_asymm start end)
  ]

-- The bytes in front of the id in the entry of a tuple: the values that the lookup fixes, the value
-- that it ranges over, and the values behind.
module _ (ns db table name : Bytes) (eqs : List Bytes) (raw : Bytes) (rest : List Bytes) where
  abbrev pub entry_key : Bytes → Bytes
  entry_key id = behind (index_prefix ns db table name ++ parts eqs) raw (parts rest ++ id)

  entry_key-id :
      (id : Bytes)
      → id_from_entry
          (entry_key id)
          (length (index_prefix ns db table name))
          (length eqs + suc (length rest))
        ≡ from_utf8 id
  entry_key-id id =
      ap (λ (k : Bytes). id_from_entry k (length region) (length eqs + suc (length rest))) layout
      ∙ ap (id_from_entry (region ++ (parts (eqs ++ raw ∷ rest) ++ id)) (length region))
          (sym (length-append eqs (raw ∷ rest)))
      ∙ id_from_tuple region (eqs ++ raw ∷ rest) id (omega (arith, length-append eqs (raw ∷ rest)))
    where
      region : Bytes
      region = index_prefix ns db table name

      layout : entry_key id ≡ region ++ (parts (eqs ++ raw ∷ rest) ++ id)
      layout = simp (parts-append, append_assoc)

index_prefix-last :
    (ns db table name : Bytes) → ¬ All (λ b. b ≡ 255) (index_prefix ns db table name)
unfolding index_prefix
index_prefix-last ns db table name h =
    let P = λ (b : ℕ). b ≡ 255 in
    let tail = All-append_right P (table_prefix ns db table tag_index ++ name) (0 ∷ []) h in
    absurd (omega (arith, tail.0))

-- The bytes of a region are not all 0xff, so a scan of it has an end.
pub base_ends :
    (ns db table name rest : Bytes)
    → IsBytes (index_prefix ns db table name ++ rest)
    → prefix_end (index_prefix ns db table name ++ rest) ≢ []
base_ends ns db table name rest h e = index_prefix-last ns db table name (
    All-append_left (λ b. b ≡ 255) (index_prefix ns db table name) rest
      ((prefix_end-nil (index_prefix ns db table name ++ rest) h).0 e))

module _ (kv : KvStore) (laws : IsKvStore kv) (ns db table name : Bytes) (eq : List Value)
    (eqs : List Bytes) (encoded : encode_values eq ≡ ok eqs) (lower upper : Option RangeBound) where
  open laws use {content}

  pub find_ids-eq :
      (s : kv.Store) (n : ℕ)
      → find_ids kv ns db table s name eq lower upper n ≡ (do
        start ← scan_start (index_prefix ns db table name ++ parts eqs) lower
        end ← scan_end (index_prefix ns db table name ++ parts eqs) upper
        ok (
            ids_of_entries
              (length (index_prefix ns db table name))
              n
              (range start end (content s))))
  unfolding find_ids
  find_ids-eq s n = rw (composite-eq eq) (rw encoded (simp (scan_ids-eq kv laws ns db table)))

  -- Over a store that keeps the contract of `KvStore`: where an entry's key has the encodings
  -- of the equal leading values, then that of a value that is comparable with both bounds and
  -- meets them, then others and an id in UTF-8, all of it bytes, the lookup by these leading
  -- values and bounds, for entries of that many values, returns, and its answer holds the id.
  pub find_ids_complete :
      (s : kv.Store) (w : Value) (raw : Bytes) (rest : List Bytes) (id v : Bytes)
      → Member (entry_key ns db table name eqs raw rest id, v) (content s)
      → IsBytes (entry_key ns db table name eqs raw rest id)
      → is_utf8 id ≡ true
      → encode_index_value w ≡ ok raw
      → ComparableBound lower w
      → ComparableBound upper w
      → meets_lower lower w ≡ true
      → meets_upper upper w ≡ true
      → (ids : List Bytes) × (find_ids kv ns db table s name eq lower upper
            (length eqs + suc (length rest))
          ≡ ok ids)
        × Member id ids
  find_ids_complete s w raw rest id v at bytes utf8 e cl cu ml mu =
      let base = index_prefix ns db table name ++ parts eqs in
      let hb =
        All-append_left (λ b. b < 256) base (escape raw ++ 0 ∷ 1 ∷ (parts rest ++ id)) bytes in
      let (start, f) = scan_start_returns base lower w cl in
      let (end, g) = scan_end_returns base upper w cu in
      let key = entry_key ns db table name eqs raw rest id in
      let above = lower_selects base lower w raw (parts rest ++ id) start cl e f in
      let below =
        upper_selects base upper w raw (parts rest ++ id) end hb bytes
          (base_ends ns db table name (parts eqs) hb) cu e g in
      let n = length eqs + suc (length rest) in
      let len = length (index_prefix ns db table name) in
      (
        ids_of_entries len n (range start end (content s)),
        find_ids-eq s n ∙ rw f (rw g refl),
        ids_complete len n id key v (range start end (content s))
            (unfold range in
              (Member-keep (in_range start end) (key, v) (content s)).1 (at, ground arith))
            (entry_key-id ns db table name eqs raw rest id ∙ ground arith),
      )

  -- Over a store that keeps the contract of `KvStore`, for leading values that can be encoded:
  -- where a lookup returns, its bounds have a start and an end, and an id is in the answer
  -- exactly if it is read from the key of an entry of the store that lies between them.
  pub find_ids_iff :
      (s : kv.Store) (n : ℕ) (ids : List Bytes) (id : Bytes)
      → find_ids kv ns db table s name eq lower upper n ≡ ok ids
      → (start : Bytes) × (end : Bytes) × (scan_start
            (index_prefix ns db table name ++ parts eqs)
            lower
          ≡ ok start)
        × (scan_end (index_prefix ns db table name ++ parts eqs) upper ≡ ok end)
        × (Member id ids ↔ (
            (k : Bytes) × (v : Bytes) × Member (k, v) (content s)
            × (in_range start end (k, v) ≡ true)
            × (id_from_entry k (length (index_prefix ns db table name)) n ≡ some id)))
  find_ids_iff s n ids id h =
      let base = index_prefix ns db table name ++ parts eqs in
      let len = length (index_prefix ns db table name) in
      elim (Result-cases (scan_start base lower)) [
        | inr (y, f) ↦ absurd (ground (arith, find_ids-eq s n))
        | inl (start, f) ↦ elim (Result-cases (scan_end base upper)) [
          | inr (z, g) ↦ absurd (ground (arith, find_ids-eq s n))
          | inl (end, g) ↦
              let same : ids_of_entries len n (range start end (content s)) ≡ ids =
                ground (arith, find_ids-eq s n) in
              (
                start,
                end,
                f,
                g,
                (
                  λ there.
                      let (k, v, at, e) =
                        ids_sound len n id (range start end (content s)) (rw same there) in
                      let (here, inside) =
                        (Member-keep (in_range start end) (k, v) (content s)).0
                          (unfold range in at) in
                      (k, v, here, inside, e),
                  λ (k, v, at, inside, e). rw (← same) (
                      ids_complete len n id k v (range start end (content s))
                        (unfold range in
                          (Member-keep (in_range start end) (k, v) (content s)).1 (at, inside))
                        e),
                ),
              )
        ]
      ]
