-- ===== src/Storage/Actor/Serve.antt =====
-- What a mailbox of messages to the storage actor (crates/storage/src/actor.rs) amounts to.
use dllb.Common.{List, [], ◌∷◌, Bytes, true, ◌≡◌, refl, ◌⊎◌, inl, inr}
use dllb.Common.Order.{lex_le}
use dllb.Common.Map.{Map, lookup, insert, remove, insert_all, remove_all, range}
use dllb.Core.{Result}
use dllb.Storage.Key.PrefixEnd.{prefix_end}
use dllb.Storage.Kv.{KvStore, IsKvStore, contains, prefix_scan, is_some}
use dllb.Storage.Redb.{Redb, IsRedb}
use dllb.Storage.Backend.{redb_backend}
use dllb.Storage.Backend.Atomic.{IsAtomic, applied, kept, unknown, writes-IsAtomic}
use dllb.Storage.Actor.{
  StorageCall, get_call, scan_call, prefix_scan_call, contains_call, StorageCast, put_cast,
  delete_cast, put_batch_cast, delete_batch_cast, StorageReply, value_reply, entries_reply,
  bool_reply, handle_call, handle_cast,
}

-- a message of either kind
pub data StorageMessage : Type 0 where
  call : StorageCall → StorageMessage
  cast : StorageCast → StorageMessage

-- the messages one by one
abbrev pub serve : (kv : KvStore) → List StorageMessage → kv.Store → List StorageReply × kv.Store
serve kv [] s = ([], s)
serve kv (call c ∷ mailbox) s =
    let rest = serve kv mailbox s in (handle_call kv c s ∷ rest.0, rest.1)
serve kv (cast c ∷ mailbox) s = serve kv mailbox (handle_cast kv c s)

-- the same of an ordered map
abbrev pub call_map : StorageCall → Map Bytes → StorageReply
call_map (get_call key) m = value_reply (lookup key m)
call_map (scan_call start end) m = entries_reply (range start end m)
call_map (prefix_scan_call prefix) m = entries_reply (range prefix (prefix_end prefix) m)
call_map (contains_call key) m = bool_reply (is_some (lookup key m))

abbrev pub cast_map : StorageCast → Map Bytes → Map Bytes
cast_map (put_cast key value) m = insert key value m
cast_map (delete_cast key) m = remove key m
cast_map (put_batch_cast ops) m = insert_all ops m
cast_map (delete_batch_cast ks) m = remove_all ks m

abbrev pub serve_map : List StorageMessage → Map Bytes → List StorageReply × Map Bytes
serve_map [] m = ([], m)
serve_map (call c ∷ mailbox) m = let rest = serve_map mailbox m in (call_map c m ∷ rest.0, rest.1)
serve_map (cast c ∷ mailbox) m = serve_map mailbox (cast_map c m)

-- the ranges that are asked for do not end before they start
abbrev pub IsOrdered : List StorageMessage → Type 0
IsOrdered [] = Unit
IsOrdered (call (scan_call start end) ∷ mailbox) = (lex_le start end ≡ true) × IsOrdered mailbox
IsOrdered (call (prefix_scan_call p) ∷ mailbox) =
    (lex_le p (prefix_end p) ≡ true) × IsOrdered mailbox
IsOrdered (_ ∷ mailbox) = IsOrdered mailbox

module _ (kv : KvStore) (laws : IsKvStore kv) where
  handle_cast-map :
      (c : StorageCast) (s : kv.Store)
      → laws.content (handle_cast kv c s) ≡ cast_map c (laws.content s)
  unfolding handle_cast
  handle_cast-map (put_cast key value) s = laws.content-put key value s
  handle_cast-map (delete_cast key) s = laws.content-delete key s
  handle_cast-map (put_batch_cast ops) s = laws.content-put_batch ops s
  handle_cast-map (delete_batch_cast ks) s = laws.content-delete_batch ks s

  -- Over a store that keeps the contract of `KvStore`, for a mailbox none of whose ranges ends
  -- before it starts: handling the messages one by one gives the replies that an ordered map
  -- would give, each of the map that the casts before it made, and leaves what the map would
  -- hold.
  pub serve-serve_map :
      (mailbox : List StorageMessage) (s : kv.Store)
      → IsOrdered mailbox
      → ((serve kv mailbox s).0 ≡ (serve_map mailbox (laws.content s)).0)
        × (laws.content (serve kv mailbox s).1 ≡ (serve_map mailbox (laws.content s)).1)
  unfolding handle_call contains prefix_scan
  serve-serve_map [] s h = (refl, refl)
  serve-serve_map (call (get_call key) ∷ mailbox) s h =
      let ih = serve-serve_map mailbox s h in (rw (laws.get-eq s key, ih.0) refl, ih.1)
  serve-serve_map (call (scan_call start end) ∷ mailbox) s h =
      let ih = serve-serve_map mailbox s h.1 in (rw (laws.scan-eq s start end h.0, ih.0) refl, ih.1)
  serve-serve_map (call (prefix_scan_call p) ∷ mailbox) s h =
      let ih = serve-serve_map mailbox s h.1 in
      (rw (laws.scan-eq s p (prefix_end p) h.0, ih.0) refl, ih.1)
  serve-serve_map (call (contains_call key) ∷ mailbox) s h =
      let ih = serve-serve_map mailbox s h in (rw (laws.get-eq s key, ih.0) refl, ih.1)
  serve-serve_map (cast c ∷ mailbox) s h =
      let ih = serve-serve_map mailbox (handle_cast kv c s) h in rw (handle_cast-map c s) at ih

-- What a mailbox may leave of a content: each cast took place whole or was lost, in their order.
pub data Settled : List StorageMessage → Map Bytes → Map Bytes → Type 0 where
  no_more : {m : Map Bytes} → Settled [] m m
  asked :
      {c : StorageCall} {mailbox : List StorageMessage} {m m' : Map Bytes}
      → Settled mailbox m m'
      → Settled (call c ∷ mailbox) m m'
  took_place :
      {c : StorageCast} {mailbox : List StorageMessage} {m m' : Map Bytes}
      → Settled mailbox (cast_map c m) m'
      → Settled (cast c ∷ mailbox) m m'
  lost :
      {c : StorageCast} {mailbox : List StorageMessage} {m m' : Map Bytes}
      → Settled mailbox m m'
      → Settled (cast c ∷ mailbox) m m'

module _ (r : Redb) (laws : IsRedb r) where
  open laws use {committed}

  whole_or_not :
      {old new : Map Bytes} {out : Result (Unit {0}) × r.Database}
      → IsAtomic r laws old new out
      → (committed out.1 ≡ new) ⊎ (committed out.1 ≡ old)
  whole_or_not (applied e c) = inl c
  whole_or_not (kept x e c) = inr c
  whole_or_not (unknown x e c) = inl c

  handle_cast-whole :
      (c : StorageCast) (d : r.Database)
      → (committed (handle_cast (redb_backend r) c d) ≡ cast_map c (committed d))
        ⊎ (committed (handle_cast (redb_backend r) c d) ≡ committed d)
  unfolding handle_cast
  handle_cast-whole (put_cast key value) d =
      whole_or_not (writes-IsAtomic r laws d key value [] []).0
  handle_cast-whole (delete_cast key) d = whole_or_not (writes-IsAtomic r laws d key [] [] []).1
  handle_cast-whole (put_batch_cast ops) d = whole_or_not (writes-IsAtomic r laws d [] [] ops []).2
  handle_cast-whole (delete_batch_cast ks) d = whole_or_not (writes-IsAtomic r laws d [] [] [] ks).3

  -- Whichever calls of redb fail, handling a mailbox leaves the content that some of its casts
  -- make, each whole and in their order; the others are lost.
  pub serve-Settled :
      (mailbox : List StorageMessage) (d : r.Database)
      → Settled mailbox (committed d) (committed (serve (redb_backend r) mailbox d).1)
  serve-Settled [] d = no_more
  serve-Settled (call c ∷ mailbox) d = asked (serve-Settled mailbox d)
  serve-Settled (cast c ∷ mailbox) d = elim (handle_cast-whole c d) [
    | inl e ↦ took_place (rw e at (serve-Settled mailbox (handle_cast (redb_backend r) c d)))
    | inr e ↦ lost (rw e at (serve-Settled mailbox (handle_cast (redb_backend r) c d)))
  ]
