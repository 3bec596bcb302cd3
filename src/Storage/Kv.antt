-- ===== src/Storage/Kv.antt =====
-- crates/storage/src/kv.rs: the trait `KvStore` with its provided methods, and the contract that
-- its documentation states. The parts above the storage take a `KvStore` and its contract as
-- parameters. `&self` methods that write return the new store beside the result.
use dllb.Common.{ℕ, List, [], ◌∷◌, Bytes, Bool, true, false, Option, none, some, ◌≡◌, length, map}
use dllb.Common.Order.{lex_le}
use dllb.Common.Map.{Map, lookup, insert, remove, insert_all, remove_all, range, keys}
use dllb.Core.{Result, ok, err, ◌>>=◌}
use dllb.Storage.Key.PrefixEnd.{prefix_end}

pub record KvStore : Type 1 where
  pub Store : Type 0
  pub get : Store → Bytes → Result (Option Bytes)
  pub put : Bytes → Bytes → Store → Result (Unit {0}) × Store
  pub delete : Bytes → Store → Result (Unit {0}) × Store
  pub scan : Store → Bytes → Bytes → Result (Map Bytes)
  pub put_batch : Map Bytes → Store → Result (Unit {0}) × Store
  pub delete_batch : List Bytes → Store → Result (Unit {0}) × Store
  pub write_batch : Map Bytes → List Bytes → Store → Result (Unit {0}) × Store
  pub count_prefix : Store → Bytes → Result ℕ
  pub scan_prefix_keys : Store → Bytes → Result (List Bytes)
  pub multi_get : Store → List Bytes → Result (List (Option Bytes))

abbrev pub is_some {ℓ} : {A : Type ℓ} → Option A → Bool
is_some none = false
is_some (some _) = true

-- collecting an iterator of results into a result
unfoldable pub map_results {ℓ κ} :
    {A : Type ℓ} {B : Type κ} → (A → Result B) → List A → Result (List B)
map_results f [] = ok []
map_results f (a ∷ as') = do b ← f a; bs ← map_results f as'; ok (b ∷ bs)

-- `self.a()?; self.b()`
abbrev pub and_then :
    {S : Type 0} → Result (Unit {0}) × S → (S → Result (Unit {0}) × S) → Result (Unit {0}) × S
and_then (ok _, s) f = f s
and_then (err e, s) f = (err e, s)

module _ (kv : KvStore) where
  open kv use {Store, get, put_batch, delete_batch, scan}

  unfoldable pub contains : Store → Bytes → Result Bool
  contains s key = do found ← get s key; ok (is_some found)

  unfoldable pub prefix_scan : Store → Bytes → Result (Map Bytes)
  prefix_scan s prefix = scan s prefix (prefix_end prefix)

  -- the provided methods that a backend may override
  delete_some : List Bytes → Store → Result (Unit {0}) × Store
  delete_some [] s = (ok tt, s)
  delete_some (k ∷ ks) s = delete_batch (k ∷ ks) s

  put_some : Map Bytes → Store → Result (Unit {0}) × Store
  put_some [] s = (ok tt, s)
  put_some (e ∷ es) s = put_batch (e ∷ es) s

  unfoldable pub default_write_batch : Map Bytes → List Bytes → Store → Result (Unit {0}) × Store
  unfolding delete_some put_some
  default_write_batch puts deletes s = and_then (delete_some deletes s) (put_some puts)

  unfoldable pub default_count_prefix : Store → Bytes → Result ℕ
  unfolding prefix_scan
  default_count_prefix s prefix = do entries ← prefix_scan s prefix; ok (length entries)

  unfoldable pub default_scan_prefix_keys : Store → Bytes → Result (List Bytes)
  unfolding prefix_scan
  default_scan_prefix_keys s prefix = do entries ← prefix_scan s prefix; ok (keys entries)

  unfoldable pub default_multi_get : Store → List Bytes → Result (List (Option Bytes))
  unfolding map_results
  default_multi_get s = map_results (get s)

-- The contract, for a store whose disk does not fail: it is an ordered map.
pub record IsKvStore (kv : KvStore) : Type 0 where
  pub content : kv.Store → Map Bytes
  pub get-eq : (s : kv.Store) (k : Bytes) → kv.get s k ≡ ok (lookup k (content s))
  pub put_returns : (k v : Bytes) (s : kv.Store) → (kv.put k v s).0 ≡ ok tt
  pub content-put : (k v : Bytes) (s : kv.Store) → content (kv.put k v s).1 ≡ insert k v (content s)
  pub delete_returns : (k : Bytes) (s : kv.Store) → (kv.delete k s).0 ≡ ok tt
  pub content-delete : (k : Bytes) (s : kv.Store) → content (kv.delete k s).1 ≡ remove k (content s)
  pub scan-eq :
      (s : kv.Store) (start end : Bytes)
      → lex_le start end ≡ true
      → kv.scan s start end ≡ ok (range start end (content s))
  pub put_batch_returns : (ops : Map Bytes) (s : kv.Store) → (kv.put_batch ops s).0 ≡ ok tt
  pub content-put_batch :
      (ops : Map Bytes) (s : kv.Store) → content (kv.put_batch ops s).1 ≡ insert_all ops (content s)
  pub delete_batch_returns : (ks : List Bytes) (s : kv.Store) → (kv.delete_batch ks s).0 ≡ ok tt
  pub content-delete_batch :
      (ks : List Bytes) (s : kv.Store)
      → content (kv.delete_batch ks s).1 ≡ remove_all ks (content s)
  pub write_batch_returns :
      (puts : Map Bytes) (ks : List Bytes) (s : kv.Store) → (kv.write_batch puts ks s).0 ≡ ok tt
  pub content-write_batch :
      (puts : Map Bytes) (ks : List Bytes) (s : kv.Store)
      → content (kv.write_batch puts ks s).1 ≡ insert_all puts (remove_all ks (content s))
  pub count_prefix-eq :
      (s : kv.Store) (p : Bytes)
      → lex_le p (prefix_end p) ≡ true
      → kv.count_prefix s p ≡ ok (length (range p (prefix_end p) (content s)))
  pub scan_prefix_keys-eq :
      (s : kv.Store) (p : Bytes)
      → lex_le p (prefix_end p) ≡ true
      → kv.scan_prefix_keys s p ≡ ok (keys (range p (prefix_end p) (content s)))
  pub multi_get-eq :
      (s : kv.Store) (ks : List Bytes) → kv.multi_get s ks ≡ ok (map (λ k. lookup k (content s)) ks)
