-- ===== src/Storage/Backend/Reads.antt =====
-- The reads of `RedbBackend` (crates/storage/src/backend.rs) over a redb that may fail at any call.
use dllb.Common.{
  Option-cases, ℕ, ◌+◌, List, [], ◌∷◌, Bytes, Option, some, ◌≡◌, true, refl, ◌∙◌, ap, inl, inr,
  arith, length, map,
}
use dllb.Common.Order.{lex_le}
use dllb.Common.Map.{Map, lookup, range, keys}
use dllb.Core.{ok, Result-cases, Attempt, done, failed, Attempt-cases}
use dllb.Storage.Key.PrefixEnd.{prefix_end}
use dllb.Storage.Redb.{Redb, IsRedb, all_done}
use dllb.Storage.Backend.{
  read_table, get, collect, scan, count_items, key_items, count_prefix, scan_prefix_keys, get_each,
  multi_get,
}

-- the three loops over the items of a range
module _ (r : Redb) where
  pub collect-eq-ok :
      (items : List (Attempt (Bytes × Bytes))) (es : Map Bytes)
      → collect r items ≡ ok es
      → all_done items ≡ some es
  unfolding collect
  collect-eq-ok [] es h = ground arith
  collect-eq-ok (failed t ∷ items) es h = absurd (ground arith)
  collect-eq-ok (done e ∷ items) es h = elim (Result-cases (collect r items)) [
    | inl (rest, f) ↦ ground (arith, collect-eq-ok items rest f)
    | inr (x, f) ↦ absurd (ground arith)
  ]

  pub count_items-eq-ok :
      (items : List (Attempt (Bytes × Bytes))) (n m : ℕ)
      → count_items r n items ≡ ok m
      → (es : Map Bytes) × (all_done items ≡ some es) × (m ≡ n + length es)
  unfolding count_items
  count_items-eq-ok [] n m h = ([], refl, ground arith)
  count_items-eq-ok (failed t ∷ items) n m h = absurd (ground arith)
  count_items-eq-ok (done e ∷ items) n m h =
      let (es, f, g) = count_items-eq-ok items (n + 1) m h in (e ∷ es, ground arith, omega (arith))

  pub key_items-eq-ok :
      (items : List (Attempt (Bytes × Bytes))) (ks : List Bytes)
      → key_items r items ≡ ok ks
      → (es : Map Bytes) × (all_done items ≡ some es) × (ks ≡ keys es)
  unfolding key_items
  key_items-eq-ok [] ks h = ([], refl, ground arith)
  key_items-eq-ok (failed t ∷ items) ks h = absurd (ground arith)
  key_items-eq-ok (done e ∷ items) ks h = elim (Result-cases (key_items r items)) [
    | inr (x, f) ↦ absurd (ground arith)
    | inl (rest, f) ↦
        let (es, g, k) = key_items-eq-ok items rest f in (e ∷ es, ground arith, ground arith)
  ]

  -- the other way round
  pub loops_done :
      (items : List (Attempt (Bytes × Bytes))) (es : Map Bytes) (n : ℕ)
      → all_done items ≡ some es
      → (collect r items ≡ ok es)
        × (count_items r n items ≡ ok (n + length es))
        × (key_items r items ≡ ok (keys es))
  unfolding collect count_items key_items
  loops_done [] es n h = ground arith
  loops_done (failed t ∷ items) es n h = absurd (ground arith)
  loops_done (done e ∷ items) es n h = elim (Option-cases (all_done items)) [
    | inl f ↦ absurd (ground arith)
    | inr (rest, f) ↦ ground (arith, loops_done items rest (n + 1) f)
  ]

module _ (r : Redb) (laws : IsRedb r) where
  open r use {Database, ReadTable}
  open laws use {committed, rows}

  pub read_table_lem : (d : Database) (u : ReadTable) → read_table r d ≡ ok u → rows u ≡ committed d
  unfolding read_table
  read_table_lem d u h = elim (Attempt-cases (r.begin_read d)) [
    | inr (text, f) ↦ absurd (ground arith)
    | inl (t, f) ↦ elim (Attempt-cases (r.open_read t)) [
      | inr (text, g) ↦ absurd (ground arith)
      | inl (u', g) ↦ ground (arith, laws.begin_read_lem d t f, laws.open_read_lem t u' g)
    ]
  ]

  -- A `get` that succeeds returns what is committed.
  pub get_sound :
      (d : Database) (k : Bytes) (o : Option Bytes) → get r d k ≡ ok o → o ≡ lookup k (committed d)
  unfolding get
  get_sound d k o h = elim (Result-cases (read_table r d)) [
    | inr (x, f) ↦ absurd (ground arith)
    | inl (u, f) ↦ elim (Attempt-cases (r.get u k)) [
      | inr (text, g) ↦ absurd (ground arith)
      | inl (o', g) ↦ ground (arith, read_table_lem d u f, laws.get_lem u k o' g)
    ]
  ]

  get_each_lem :
      (u : ReadTable) (ks : List Bytes) (os : List (Option Bytes))
      → get_each r u ks ≡ ok os
      → os ≡ map (λ k. lookup k (rows u)) ks
  unfolding get_each
  get_each_lem u [] os h = ground arith
  get_each_lem u (k ∷ ks) os h = elim (Attempt-cases (r.get u k)) [
    | inr (text, f) ↦ absurd (ground arith)
    | inl (o, f) ↦ elim (Result-cases (get_each r u ks)) [
      | inr (x, g) ↦ absurd (ground arith)
      | inl (rest, g) ↦ ground (arith, laws.get_lem u k o f, get_each_lem u ks rest g)
    ]
  ]

  -- Whichever calls of redb may fail: a `multi_get` that succeeds returns what is committed
  -- under each key, in the order of the keys.
  pub multi_get_sound :
      (d : Database) (ks : List Bytes) (os : List (Option Bytes))
      → multi_get r d ks ≡ ok os
      → os ≡ map (λ k. lookup k (committed d)) ks
  unfolding multi_get
  multi_get_sound d ks os h = elim (Result-cases (read_table r d)) [
    | inr (x, f) ↦ absurd (ground arith)
    | inl (u, f) ↦ rw (← read_table_lem d u f) (get_each_lem u ks os (ground arith))
  ]

  module _ (d : Database) (start end : Bytes) (ordered : lex_le start end ≡ true) where
    abbrev entries : Map Bytes
    entries = range start end (committed d)

    -- the items of a range that redb delivers without an error
    items_lem :
        (u : ReadTable) (items : List (Attempt (Bytes × Bytes))) (es : Map Bytes)
        → read_table r d ≡ ok u
        → r.range_items u start end ≡ done items
        → all_done items ≡ some es
        → es ≡ entries
    items_lem u items es f g e =
        laws.range_lem u start end items es ordered g e
        ∙ ap (range start end) (read_table_lem d u f)

    -- Whichever calls of redb may fail: a scan that succeeds, its start not above its end,
    -- returns the committed entries between them.
    pub scan_sound : (es : Map Bytes) → scan r d start end ≡ ok es → es ≡ entries
    unfolding scan
    scan_sound es h = elim (Result-cases (read_table r d)) [
      | inr (x, f) ↦ absurd (ground arith)
      | inl (u, f) ↦ elim (Attempt-cases (r.range_items u start end)) [
        | inr (text, g) ↦ absurd (ground arith)
        | inl (items, g) ↦ items_lem u items es f g (collect-eq-ok r items es (ground arith))
      ]
    ]

  -- Counting a prefix, or listing its keys, agrees with a scan of it.
  pub count_prefix_sound :
      (d : Database) (p : Bytes) (n : ℕ)
      → lex_le p (prefix_end p) ≡ true
      → count_prefix r d p ≡ ok n
      → n ≡ length (range p (prefix_end p) (committed d))
  unfolding count_prefix
  count_prefix_sound d p n ordered h = elim (Result-cases (read_table r d)) [
    | inr (x, f) ↦ absurd (ground arith)
    | inl (u, f) ↦ elim (Attempt-cases (r.range_items u p (prefix_end p))) [
      | inr (text, g) ↦ absurd (ground arith)
      | inl (items, g) ↦
          let (es, e, k) = count_items-eq-ok r items 0 n (ground arith) in
          let same = items_lem d p (prefix_end p) ordered u items es f g e in
          rw (← same) (omega arith)
    ]
  ]

  pub scan_prefix_keys_sound :
      (d : Database) (p : Bytes) (ks : List Bytes)
      → lex_le p (prefix_end p) ≡ true
      → scan_prefix_keys r d p ≡ ok ks
      → ks ≡ keys (range p (prefix_end p) (committed d))
  unfolding scan_prefix_keys
  scan_prefix_keys_sound d p ks ordered h = elim (Result-cases (read_table r d)) [
    | inr (x, f) ↦ absurd (ground arith)
    | inl (u, f) ↦ elim (Attempt-cases (r.range_items u p (prefix_end p))) [
      | inr (text, g) ↦ absurd (ground arith)
      | inl (items, g) ↦
          let (es, e, k) = key_items-eq-ok r items ks (ground arith) in
          let same = items_lem d p (prefix_end p) ordered u items es f g e in rw (← same) k
    ]
  ]
