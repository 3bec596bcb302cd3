-- ===== src/Document/Encoding/Order.antt =====
-- The order of values, and that the encoding of crates/document/src/index.rs keeps it.
use dllb.Common.{
  ◌<◌, ◌^◌, suc, List, [], ◌∷◌, ◌++◌, Bytes, Bool, true, false, not, ◌&&◌, ◌||◌, ◌≡◌, refl, arith,
  append_assoc, ◌∙◌, ap, length,
}
use dllb.Common.Int.{lt_int, IsI64}
use dllb.Common.Order.{lex_lt}
use dllb.Core.{Value, ok}
use dllb.Document.Encoding.{
  encode_index_value, encode_index_key_part, term, encode_composite_key_part,
}
use dllb.Document.Encoding.Words.{lex_lt-encode_i64, lex_lt-encode_f64, sign_magnitude}
use dllb.Document.Encoding.Escape.{escape, lex_lt-escape}
use dllb.Document.Encoding.Parts.{
  escaped_lem, parts, raws_lt, encode_values, composite-eq, lex_lt-parts,
}

-- `<` within a type; floats compare by the total order
abbrev pub value_lt : Value → Value → Bool
value_lt (Value.string s) (Value.string t) = lex_lt s t
value_lt (Value.int m) (Value.int n) = lt_int m n
value_lt (Value.float a) (Value.float b) = lt_int (sign_magnitude a) (sign_magnitude b)
value_lt (Value.bool false) (Value.bool true) = true
value_lt _ _ = false

-- Two indexable values of one type, their numbers 64 bits wide.
abbrev pub Comparable : Value → Value → Type 0
Comparable (Value.string s) (Value.string t) = Unit
Comparable (Value.int m) (Value.int n) = IsI64 m × IsI64 n
Comparable (Value.float a) (Value.float b) = (a < 2 ^ 64) × (b < 2 ^ 64)
Comparable (Value.bool a) (Value.bool b) = Unit
Comparable _ _ = ⊥

pub Comparable-symm : (v w : Value) → Comparable v w → Comparable w v
Comparable-symm (Value.string s) (Value.string t) h = tt
Comparable-symm (Value.int m) (Value.int n) h = (h.1, h.0)
Comparable-symm (Value.float a) (Value.float b) h = (h.1, h.0)
Comparable-symm (Value.bool a) (Value.bool b) h = tt
Comparable-symm _ _ h = absurd h

lex_lt-bool : (a b : Bool) → value_lt (Value.bool a) (Value.bool b) ≡ (not a && b)
lex_lt-bool true b = refl
lex_lt-bool false true = refl
lex_lt-bool false false = refl

-- The encodings of two comparable values compare as the values.
pub lex_lt-encode_index_value :
    (v w : Value) (a b : Bytes)
    → Comparable v w
    → encode_index_value v ≡ ok a
    → encode_index_value w ≡ ok b
    → lex_lt a b ≡ value_lt v w
unfolding encode_index_value
lex_lt-encode_index_value (Value.string s) (Value.string t) a b h e f = ground arith
lex_lt-encode_index_value (Value.int m) (Value.int n) a b h e f =
    ground (arith, lex_lt-encode_i64 m n h.0 h.1)
lex_lt-encode_index_value (Value.float m) (Value.float n) a b h e f =
    ground (arith, lex_lt-encode_f64 m n h.0 h.1)
lex_lt-encode_index_value (Value.bool m) (Value.bool n) a b h e f = ground (arith, lex_lt-bool m n)
lex_lt-encode_index_value _ _ a b h e f = absurd h

pub encode_index_value_returns :
    (v w : Value) → Comparable v w → (a : Bytes) × (encode_index_value v ≡ ok a)
unfolding encode_index_value
encode_index_value_returns (Value.string s) (Value.string t) h = (_, refl)
encode_index_value_returns (Value.int m) (Value.int n) h = (_, refl)
encode_index_value_returns (Value.float m) (Value.float n) h = (_, refl)
encode_index_value_returns (Value.bool m) (Value.bool n) h = (_, refl)
encode_index_value_returns _ _ h = absurd h

-- Two comparable values have key parts, and in keys that have them at one place the values
-- decide first, and then, where neither value is below the other, the bytes behind the key
-- parts.
pub key_part_order :
    (v w : Value) (x y : Bytes)
    → Comparable v w
    → (p : Bytes) × (q : Bytes) × (encode_index_key_part v ≡ ok p)
      × (encode_index_key_part w ≡ ok q)
      × (lex_lt (p ++ x) (q ++ y) ≡ (value_lt v w || (not (value_lt w v) && lex_lt x y)))
unfolding encode_index_key_part
key_part_order v w x y h =
    let (a, e) = encode_index_value_returns v w h in
    let (b, f) = encode_index_value_returns w v (Comparable-symm v w h) in
    (
      escape a ++ term,
      escape b ++ term,
      ground (arith, escaped_lem v),
      ground (arith, escaped_lem w),
      rw (append_assoc (escape a) term x) (
          rw (append_assoc (escape b) term y) (
            lex_lt-escape a b x y
            ∙ rw (lex_lt-encode_index_value v w a b h e f)
                (rw (lex_lt-encode_index_value w v b a (Comparable-symm v w h) f e) refl))),
    )

-- `<` of tuples, by the first values that differ
abbrev pub tuple_lt : List Value → List Value → Bool
tuple_lt vs [] = false
tuple_lt [] (_ ∷ _) = true
tuple_lt (v ∷ vs) (w ∷ ws) = value_lt v w || (not (value_lt w v) && tuple_lt vs ws)

-- Tuples of one length with comparable values at each place.
abbrev pub AllComparable : List Value → List Value → Type 0
AllComparable [] [] = Unit
AllComparable (v ∷ vs) (w ∷ ws) = Comparable v w × AllComparable vs ws
AllComparable _ _ = ⊥

record RawTuples (vs ws : List Value) : Type 0 where
  left : List Bytes
  right : List Bytes
  encoded_left : encode_values vs ≡ ok left
  encoded_right : encode_values ws ≡ ok right
  same_length : length left ≡ length right
  keeps : raws_lt left right ≡ tuple_lt vs ws
  keeps_back : raws_lt right left ≡ tuple_lt ws vs

raw_tuples : (vs ws : List Value) → AllComparable vs ws → RawTuples vs ws
unfolding encode_values
raw_tuples [] [] h = record {
  left = [];
  right = [];
  encoded_left = refl;
  encoded_right = refl;
  same_length = refl;
  keeps = refl;
  keeps_back = refl;
}
raw_tuples [] (w ∷ ws) h = absurd h
raw_tuples (v ∷ vs) [] h = absurd h
raw_tuples (v ∷ vs) (w ∷ ws) h =
    let (a, e) = encode_index_value_returns v w h.0 in
    let (b, f) = encode_index_value_returns w v (Comparable-symm v w h.0) in
    let rest = raw_tuples vs ws h.1 in
    let below = lex_lt-encode_index_value v w a b h.0 e f in
    let above = lex_lt-encode_index_value w v b a (Comparable-symm v w h.0) f e in
    record {
      left = a ∷ rest.left;
      right = b ∷ rest.right;
      encoded_left = ground (arith, e, rest.encoded_left);
      encoded_right = ground (arith, f, rest.encoded_right);
      same_length = ap suc rest.same_length;
      keeps = rw (below, above, rest.keeps) refl;
      keeps_back = rw (below, above, rest.keeps_back) refl;
    }

-- Two tuples of one length, whose values are comparable place by place, have key parts, and in
-- keys that have them at one place the first values that differ decide, and then, where neither
-- tuple is below the other, the bytes behind the key parts.
pub composite_order :
    (vs ws : List Value) (x y : Bytes)
    → AllComparable vs ws
    → (p : Bytes) × (q : Bytes) × (encode_composite_key_part vs ≡ ok p)
      × (encode_composite_key_part ws ≡ ok q)
      × (lex_lt (p ++ x) (q ++ y) ≡ (tuple_lt vs ws || (not (tuple_lt ws vs) && lex_lt x y)))
composite_order vs ws x y h =
    let raw = raw_tuples vs ws h in
    let e = raw.encoded_left in
    let f = raw.encoded_right in
    (
      parts raw.left,
      parts raw.right,
      composite-eq vs ∙ rw e refl,
      composite-eq ws ∙ rw f refl,
      lex_lt-parts raw.left raw.right x y raw.same_length ∙ rw (raw.keeps, raw.keeps_back) refl,
    )
