-- ===== src/Document/Encoding/Parts.antt =====
-- The key part of a tuple (crates/document/src/index.rs): its order, and the id that is read back
-- from behind it.
use dllb.Common.{
  ℕ, suc, ◌+◌, ◌<◌, List, [], ◌∷◌, ◌++◌, Bytes, Bool, true, false, not, ◌&&◌, ◌||◌, inl, inr, ◌≡◌,
  refl, arith, append_assoc, append-nil, ◌∙◌, ap, sym, length, drop-length_append,
}
use dllb.Common.Order.{lex_lt}
use dllb.Common.Utf8.{from_utf8}
use dllb.Core.{Value, Result, ok, ◌>>=◌, Result-cases}
use dllb.Document.Encoding.{
  term, walk, id_from_entry, encode_index_value, encode_index_value_escaped, encode_index_key_part,
  composite_into, encode_composite_key_part,
}
use dllb.Document.Encoding.Escape.{escape, escape_into-eq, lex_lt-escape, walk-escape}

-- The raw encodings of a tuple, and the key part that they make.
abbrev pub parts : List Bytes → Bytes
parts [] = []
parts (raw ∷ raws) = escape raw ++ 0 ∷ 1 ∷ parts raws

unfoldable pub encode_values : List Value → Result (List Bytes)
encode_values [] = ok []
encode_values (v ∷ vs) = do raw ← encode_index_value v; raws ← encode_values vs; ok (raw ∷ raws)

pub parts-append : (as' bs : List Bytes) → parts (as' ++ bs) ≡ parts as' ++ parts bs
parts-append [] bs = refl
parts-append (a ∷ as') bs = simp (parts-append as' bs, append_assoc)

pub escaped_lem :
    (v : Value) → encode_index_value_escaped v ≡ (do raw ← encode_index_value v; ok (escape raw))
unfolding encode_index_value_escaped
escaped_lem v = elim (Result-cases (encode_index_value v)) [
  | inl (raw, e) ↦ ground (arith, escape_into-eq raw [])
  | inr (x, e) ↦ ground arith
]

composite_into-eq :
    (vs : List Value) (out : Bytes)
    → composite_into vs out ≡ (do raws ← encode_values vs; ok (out ++ parts raws))
unfolding composite_into encode_values encode_index_key_part
composite_into-eq [] out = ap ok (sym (append-nil out))
composite_into-eq (v ∷ vs) out = elim (Result-cases (encode_index_value v)) [
  | inr (x, e) ↦ ground (arith, escaped_lem v)
  | inl (raw, e) ↦ elim (Result-cases (encode_values vs)) [
    | inr (y, f) ↦ ground (arith, escaped_lem v, composite_into-eq vs (out ++ (escape raw ++ term)))
    | inl (raws, f) ↦ ground (
      arith,
      escaped_lem v,
      composite_into-eq vs (out ++ (escape raw ++ term)),
      append_assoc out (escape raw ++ term) (parts raws),
      append_assoc (escape raw) term (parts raws),
    )
  ]
]

-- The key part of a tuple is made of the escaped and terminated encodings, or fails as the first
-- of them that fails.
pub composite-eq :
    (vs : List Value) → encode_composite_key_part vs ≡ (do raws ← encode_values vs; ok (parts raws))
unfolding encode_composite_key_part
composite-eq vs = composite_into-eq vs []

abbrev pub raws_lt : List Bytes → List Bytes → Bool
raws_lt as' [] = false
raws_lt [] (_ ∷ _) = true
raws_lt (a ∷ as') (b ∷ bs) = lex_lt a b || (not (lex_lt b a) && raws_lt as' bs)

-- the raw encodings of two tuples of one length, with what follows
pub lex_lt-parts :
    (as' bs : List Bytes) (x y : Bytes)
    → length as' ≡ length bs
    → lex_lt (parts as' ++ x) (parts bs ++ y)
      ≡ (raws_lt as' bs || (not (raws_lt bs as') && lex_lt x y))
lex_lt-parts [] [] x y h = ground arith
lex_lt-parts [] (b ∷ bs) x y h = absurd (omega arith)
lex_lt-parts (a ∷ as') [] x y h = absurd (omega arith)
lex_lt-parts (a ∷ as') (b ∷ bs) x y h = rw (append_assoc (escape a) (0 ∷ 1 ∷ parts as') x) (
    rw (append_assoc (escape b) (0 ∷ 1 ∷ parts bs) y) (
      lex_lt-escape a b (parts as' ++ x) (parts bs ++ y)
      ∙ rw (lex_lt-parts as' bs x y (omega arith)) (ground arith)))

walk-parts :
    (seen n : ℕ) (raw : Bytes) (raws : List Bytes) (x : Bytes)
    → suc seen + length raws ≡ n
    → walk seen n (parts (raw ∷ raws) ++ x) ≡ from_utf8 x
walk-parts seen n raw [] x h =
    rw (append_assoc (escape raw) (0 ∷ 1 ∷ []) x) (walk-escape seen n raw x ∙ ground arith)
walk-parts seen n raw (r ∷ raws) x h = rw (append_assoc (escape raw) (0 ∷ 1 ∷ parts (r ∷ raws)) x) (
    walk-escape seen n raw (parts (r ∷ raws) ++ x)
    ∙ ground (arith, walk-parts (suc seen) n r raws x (omega arith)))

pub id_from_entry_lem :
    (region : Bytes) (raw : Bytes) (raws : List Bytes) (id : Bytes)
    → id_from_entry (region ++ (parts (raw ∷ raws) ++ id)) (length region) (suc (length raws))
      ≡ from_utf8 id
unfolding id_from_entry
id_from_entry_lem region raw raws id =
    rw (drop-length_append region (parts (raw ∷ raws) ++ id))
      (walk-parts 0 (suc (length raws)) raw raws id (omega arith))

pub id_from_tuple :
    (region : Bytes) (raws : List Bytes) (id : Bytes)
    → 0 < length raws
    → id_from_entry (region ++ (parts raws ++ id)) (length region) (length raws) ≡ from_utf8 id
id_from_tuple region [] id h = absurd (omega arith)
id_from_tuple region (raw ∷ raws) id h = id_from_entry_lem region raw raws id

length-encode_values :
    (vs : List Value) (raws : List Bytes) → encode_values vs ≡ ok raws → length raws ≡ length vs
unfolding encode_values
length-encode_values [] raws e = ground arith
length-encode_values (v ∷ vs) raws e = elim (Result-cases (encode_index_value v)) [
  | inr (x, f) ↦ absurd (ground arith)
  | inl (raw, f) ↦ elim (Result-cases (encode_values vs)) [
    | inr (x, g) ↦ absurd (ground arith)
    | inl (rest, g) ↦ ground (arith, length-encode_values vs rest g)
  ]
]

-- From a key with the key part of a tuple of one value or more, behind any region and before
-- any id, exactly the bytes of the id are taken, where they are UTF-8.
pub id_from_entry-composite :
    (region : Bytes) (vs : List Value) (p id : Bytes)
    → 0 < length vs
    → encode_composite_key_part vs ≡ ok p
    → id_from_entry (region ++ (p ++ id)) (length region) (length vs) ≡ from_utf8 id
id_from_entry-composite region vs p id some_values e = elim (Result-cases (encode_values vs)) [
  | inr (x, f) ↦ absurd (ground (arith, composite-eq vs))
  | inl (raws, f) ↦
      let made : p ≡ parts raws = ground (arith, composite-eq vs) in
      let size = length-encode_values vs raws f in
      rw (made, ← size) (id_from_tuple region raws id (omega arith))
]
