-- ===== src/Common/Map.antt =====
-- Ordered maps with byte string keys: the entries in key order. This is `BTreeMap<String, V>`,
-- and the reference content of the key-value store.
use dllb.Common.Tests.{if◌then◌else◌}
use dllb.Common.Lists.{Bytes, beq, beq_iff, keep, any}
use dllb.Common.Order.{lex_lt}
use mathlib.Core.Path.{◌≡◌, refl}
use mathlib.Core.Bool.{Bool, true, false, not, ◌&&◌}
use mathlib.Core.Option.{Option, none, some}
use mathlib.Core.List.{List, [], ◌∷◌, ◌++◌}
use native.Mathlib.Omega.{arith}

abbrev pub Map {ℓ} : Type ℓ → Type ℓ
Map V = List (Bytes × V)

module _ {ℓ} {V : Type ℓ} where
  abbrev pub lookup : Bytes → Map V → Option V
  lookup k [] = none
  lookup k ((j, v) ∷ m) = if beq j k then some v else lookup k m

  abbrev pub contains_key : Bytes → Map V → Bool
  contains_key k m = elim (lookup k m) [ none ↦ false | some _ ↦ true ]

  unfoldable pub insert : Bytes → V → Map V → Map V
  insert k v [] = (k, v) ∷ []
  insert k v ((j, w) ∷ m) =
      if beq j k
      then (k, v) ∷ m
      else if lex_lt k j
      then (k, v) ∷ (j, w) ∷ m
      else (j, w) ∷ insert k v m

  unfoldable pub remove : Bytes → Map V → Map V
  remove k [] = []
  remove k ((j, w) ∷ m) = let rest = remove k m in if beq j k then rest else (j, w) ∷ rest

  -- `a.extend(b)`, or a loop of inserts
  unfoldable pub insert_all : Map V → Map V → Map V
  insert_all [] m = m
  insert_all ((k, v) ∷ ops) m = insert_all ops (insert k v m)

  unfoldable pub remove_all : List Bytes → Map V → Map V
  remove_all [] m = m
  remove_all (k ∷ ks) m = remove_all ks (remove k m)

  pub lookup-insert :
      (j k : Bytes) (v : V) (m : Map V)
      → lookup j (insert k v m) ≡ (if beq k j then some v else lookup j m)
  unfolding insert
  lookup-insert j k v [] = refl
  lookup-insert j k v ((i, w) ∷ m) =
      ground (arith, lookup-insert j k v m, beq_iff i k, beq_iff i j, beq_iff k j)

  pub lookup-remove :
      (j k : Bytes) (m : Map V) → lookup j (remove k m) ≡ (if beq k j then none else lookup j m)
  unfolding remove
  lookup-remove j k [] = ground arith
  lookup-remove j k ((i, w) ∷ m) =
      ground (arith, lookup-remove j k m, beq_iff i k, beq_iff i j, beq_iff k j)

  -- The last of the operations on a key decides what it holds.
  pub lookup-insert_all_none :
      (j : Bytes) (ops m : Map V) → lookup j ops ≡ none → lookup j (insert_all ops m) ≡ lookup j m
  unfolding insert_all
  lookup-insert_all_none j [] m h = refl
  lookup-insert_all_none j ((k, v) ∷ ops) m h =
      ground (arith, lookup-insert_all_none j ops (insert k v m), lookup-insert j k v m)

  pub lookup-remove_all :
      (j : Bytes) (ks : List Bytes) (m : Map V)
      → lookup j m ≡ none
      → lookup j (remove_all ks m) ≡ none
  unfolding remove_all
  lookup-remove_all j [] m h = h
  lookup-remove_all j (k ∷ ks) m h =
      lookup-remove_all j ks (remove k m) (ground (arith, lookup-remove j k m))

  -- Operations on other keys leave a key alone.
  pub lookup-remove_all_ne :
      (j : Bytes) (ks : List Bytes) (m : Map V)
      → any (λ k. beq k j) ks ≡ false
      → lookup j (remove_all ks m) ≡ lookup j m
  unfolding remove_all
  lookup-remove_all_ne j [] m h = refl
  lookup-remove_all_ne j (k ∷ ks) m h =
      ground (arith, lookup-remove_all_ne j ks (remove k m), lookup-remove j k m)

  abbrev pub keys : Map V → List Bytes
  keys [] = []
  keys ((k, _) ∷ m) = k ∷ keys m

  pub any-keys : (j : Bytes) (m : Map V) → lookup j m ≡ none → any (λ k. beq k j) (keys m) ≡ false
  any-keys j [] h = refl
  any-keys j ((k, v) ∷ m) h = ground (arith, any-keys j m)

  pub lookup-append : (j : Bytes) (a b : Map V) → lookup j a ≡ none → lookup j (a ++ b) ≡ lookup j b
  lookup-append j [] b h = refl
  lookup-append j ((k, v) ∷ a) b h = ground (arith, lookup-append j a b)

  -- the entries whose key lies in `[start, end)`
  abbrev pub in_range : Bytes → Bytes → Bytes × V → Bool
  in_range start end e = not (lex_lt e.0 start) && lex_lt e.0 end

  unfoldable pub range : Bytes → Bytes → Map V → Map V
  range start end = keep (in_range start end)
