-- ===== src/Document/Index/Scan.antt =====
-- What a lookup by equality and range selects (`find_ids` of crates/document/src/index.rs).
use dllb.Common.{
  [], ◌∷◌, ◌++◌, Bytes, Bool, true, false, not, ◌&&◌, Option, none, some, if◌then◌else◌, ◌≡◌, ◌≢◌,
  refl, arith, append_assoc, ◌∙◌, ap, sym, starts_with-append,
}
use dllb.Common.Order.{lex_lt, lex_le, lex_lt-append_left}
use dllb.Common.Map.{in_range}
use dllb.Core.{Value, ok}
use dllb.Storage.Key.PrefixEnd.{
  prefix_end, prefix_end-append, IsBytes, before_end-ne, starts_with-range,
}
use dllb.Document.Encoding.{term, encode_index_value}
use dllb.Document.Encoding.Escape.{escape, lex_lt-escape_open, lex_lt-escape_past}
use dllb.Document.Encoding.Parts.{escaped_lem}
use dllb.Document.Encoding.Order.{
  value_lt, Comparable, Comparable-symm, lex_lt-encode_index_value, encode_index_value_returns,
}
use dllb.Document.Index.{RangeBound, scan_start, scan_end}

-- What the caller asks for: the value lies above the lower bound and below the upper one.
abbrev pub meets_lower : Option RangeBound → Value → Bool
meets_lower none w = true
meets_lower (some (v, inclusive)) w = if inclusive then not (value_lt w v) else value_lt v w

abbrev pub meets_upper : Option RangeBound → Value → Bool
meets_upper none w = true
meets_upper (some (v, inclusive)) w = if inclusive then not (value_lt v w) else value_lt w v

abbrev pub ComparableBound : Option RangeBound → Value → Type 0
ComparableBound none w = Unit
ComparableBound (some (v, _)) w = Comparable v w

-- The end of the values that equal the bound.
past_term :
    (base b : Bytes) → prefix_end ((base ++ escape b) ++ term) ≡ base ++ (escape b ++ 0 ∷ 2 ∷ [])
past_term base b =
    ap prefix_end (
      append_assoc base (escape b) term
      ∙ ap (λ (l : Bytes). base ++ l) (sym (append_assoc (escape b) (0 ∷ []) (1 ∷ [])))
      ∙ sym (append_assoc base (escape b ++ 0 ∷ []) (1 ∷ [])))
    ∙ prefix_end-append (base ++ (escape b ++ 0 ∷ [])) 1 (omega arith)
    ∙ append_assoc base (escape b ++ 0 ∷ []) (2 ∷ [])
    ∙ ap (λ (l : Bytes). base ++ l) (append_assoc (escape b) (0 ∷ []) (2 ∷ []))

module _ (base : Bytes) (v : Value) (b : Bytes) (encoded : encode_index_value v ≡ ok b) where
  scan_start_lem :
      (inclusive : Bool)
      → scan_start base (some (v, inclusive))
        ≡ ok (base ++ (if inclusive then escape b else escape b ++ 0 ∷ 2 ∷ []))
  unfolding scan_start
  scan_start_lem inclusive = ground (arith, escaped_lem v, past_term base b)

  scan_end_lem :
      (inclusive : Bool)
      → scan_end base (some (v, inclusive))
        ≡ ok (base ++ (if inclusive then escape b ++ 0 ∷ 2 ∷ [] else escape b))
  unfolding scan_end
  scan_end_lem inclusive = ground (arith, escaped_lem v, past_term base b)

-- an entry's key behind `base`: the value's key part and anything
abbrev pub behind : Bytes → Bytes → Bytes → Bytes
behind base raw x = base ++ (escape raw ++ 0 ∷ 1 ∷ x)

lower_none : (base k : Bytes) → lex_le base (base ++ k) ≡ true
lower_none [] k = refl
lower_none (c ∷ base) k = ground (arith, lower_none base k)

pub lower_selects :
    (base : Bytes) (lower : Option RangeBound) (w : Value) (raw x start : Bytes)
    → ComparableBound lower w
    → encode_index_value w ≡ ok raw
    → scan_start base lower ≡ ok start
    → lex_le start (behind base raw x) ≡ meets_lower lower w
unfolding scan_start
lower_selects base none w raw x start c e h =
    let same : base ≡ start = ground arith in
    rw (← same) (lower_none base (escape raw ++ 0 ∷ 1 ∷ x))
lower_selects base (some (v, true)) w raw x start c e h =
    let (b, f) = encode_index_value_returns v w c in
    ground (
      arith,
      scan_start_lem base v b f true,
      lex_lt-append_left base (escape raw ++ 0 ∷ 1 ∷ x) (escape b),
      lex_lt-escape_open raw b x,
      lex_lt-encode_index_value w v raw b (Comparable-symm v w c) e f,
    )
lower_selects base (some (v, false)) w raw x start c e h =
    let (b, f) = encode_index_value_returns v w c in
    ground (
      arith,
      scan_start_lem base v b f false,
      lex_lt-append_left base (escape raw ++ 0 ∷ 1 ∷ x) (escape b ++ 0 ∷ 2 ∷ []),
      lex_lt-escape_past raw b x,
      lex_lt-encode_index_value v w b raw c f e,
    )

pub upper_selects :
    (base : Bytes) (upper : Option RangeBound) (w : Value) (raw x end : Bytes)
    → IsBytes base
    → IsBytes (behind base raw x)
    → prefix_end base ≢ []
    → ComparableBound upper w
    → encode_index_value w ≡ ok raw
    → scan_end base upper ≡ ok end
    → lex_lt (behind base raw x) end ≡ meets_upper upper w
unfolding scan_end
upper_selects base none w raw x end hb hk ne c e h = ground (
  arith,
  starts_with-range base (behind base raw x) hb hk,
  starts_with-append base (escape raw ++ 0 ∷ 1 ∷ x),
  before_end-ne (behind base raw x) (prefix_end base) ne,
)
upper_selects base (some (v, true)) w raw x end hb hk ne c e h =
    let (b, f) = encode_index_value_returns v w c in
    ground (
      arith,
      scan_end_lem base v b f true,
      lex_lt-append_left base (escape raw ++ 0 ∷ 1 ∷ x) (escape b ++ 0 ∷ 2 ∷ []),
      lex_lt-escape_past raw b x,
      lex_lt-encode_index_value v w b raw c f e,
    )
upper_selects base (some (v, false)) w raw x end hb hk ne c e h =
    let (b, f) = encode_index_value_returns v w c in
    ground (
      arith,
      scan_end_lem base v b f false,
      lex_lt-append_left base (escape raw ++ 0 ∷ 1 ∷ x) (escape b),
      lex_lt-escape_open raw b x,
      lex_lt-encode_index_value w v raw b (Comparable-symm v w c) e f,
    )

-- A bound that can be compared has an encoding.
pub scan_start_returns :
    (base : Bytes) (lower : Option RangeBound) (w : Value)
    → ComparableBound lower w
    → (start : Bytes) × (scan_start base lower ≡ ok start)
unfolding scan_start
scan_start_returns base none w c = (base, refl)
scan_start_returns base (some (v, inclusive)) w c =
    let (b, f) = encode_index_value_returns v w c in (_, scan_start_lem base v b f inclusive)

pub scan_end_returns :
    (base : Bytes) (upper : Option RangeBound) (w : Value)
    → ComparableBound upper w
    → (end : Bytes) × (scan_end base upper ≡ ok end)
unfolding scan_end
scan_end_returns base none w c = (prefix_end base, refl)
scan_end_returns base (some (v, inclusive)) w c =
    let (b, f) = encode_index_value_returns v w c in (_, scan_end_lem base v b f inclusive)

-- Behind a base of bytes that are not all 0xff, and for a value that is comparable with both
-- bounds: the key of the value, whatever follows it, lies between the start and the end of the
-- bounds exactly when the value meets the bounds.
pub in_range-bounds :
    (base : Bytes) (lower upper : Option RangeBound) (w : Value) (raw x start end v : Bytes)
    → IsBytes base
    → IsBytes (behind base raw x)
    → prefix_end base ≢ []
    → ComparableBound lower w
    → ComparableBound upper w
    → encode_index_value w ≡ ok raw
    → scan_start base lower ≡ ok start
    → scan_end base upper ≡ ok end
    → in_range start end (behind base raw x, v) ≡ (meets_lower lower w && meets_upper upper w)
in_range-bounds base lower upper w raw x start end v hb hk ne cl cu e f g = ground (
  arith,
  lower_selects base lower w raw x start cl e f,
  upper_selects base upper w raw x end hb hk ne cu e g,
)
