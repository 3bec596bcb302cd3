-- ===== src/Document/Encoding/Escape.antt =====
-- The escape and the terminator of crates/document/src/index.rs: order, and the way back.
use dllb.Common.{
  ℕ, zero, suc, [], ◌∷◌, ◌++◌, Bytes, not, ◌&&◌, ◌||◌, ◌==◌, if◌then◌else◌, ◌≡◌, refl, arith,
  append_assoc, append-nil, sym, ap, ◌∙◌,
}
use dllb.Common.Order.{lex_lt}
use dllb.Common.Utf8.{from_utf8}
use dllb.Document.Encoding.{escape_into, walk}

abbrev pub escape : Bytes → Bytes
escape [] = []
escape (b ∷ raw) = b ∷ (if b == 0x00 then 0xff ∷ escape raw else escape raw)

escape-suc : (b : ℕ) (raw : Bytes) → escape (suc b ∷ raw) ≡ suc b ∷ escape raw
escape-suc b raw = ground arith

escape_into-suc :
    (b : ℕ) (raw out : Bytes) → escape_into (suc b ∷ raw) out ≡ escape_into raw (out ++ suc b ∷ [])
unfolding escape_into
escape_into-suc b raw out = ap (escape_into raw) (ground arith)

pub escape_into-eq : (raw out : Bytes) → escape_into raw out ≡ out ++ escape raw
unfolding escape_into
escape_into-eq [] out = sym (append-nil out)
escape_into-eq (zero ∷ raw) out =
    escape_into-eq raw ((out ++ 0 ∷ []) ++ 255 ∷ []) ∙ simp append_assoc
escape_into-eq (suc b ∷ raw) out =
    escape_into-suc b raw out
    ∙ escape_into-eq raw (out ++ suc b ∷ [])
    ∙ rw (escape-suc b raw) (append_assoc out (suc b ∷ []) (escape raw))

-- Escaped and terminated, byte strings compare as they did; where they are equal what follows
-- decides.
pub lex_lt-escape :
    (a b x y : Bytes)
    → lex_lt (escape a ++ 0 ∷ 1 ∷ x) (escape b ++ 0 ∷ 1 ∷ y)
      ≡ (lex_lt a b || (not (lex_lt b a) && lex_lt x y))
lex_lt-escape [] [] x y = refl
lex_lt-escape [] (c ∷ b) x y = ground arith
lex_lt-escape (c ∷ a) [] x y = ground arith
lex_lt-escape (c ∷ a) (d ∷ b) x y = ground (arith, lex_lt-escape a b x y)

-- Against the escaped bytes with no terminator, and with one that is one higher.
pub lex_lt-escape_open : (a b x : Bytes) → lex_lt (escape a ++ 0 ∷ 1 ∷ x) (escape b) ≡ lex_lt a b
lex_lt-escape_open [] [] x = refl
lex_lt-escape_open [] (c ∷ b) x = ground arith
lex_lt-escape_open (c ∷ a) [] x = refl
lex_lt-escape_open (c ∷ a) (d ∷ b) x = ground (arith, lex_lt-escape_open a b x)

pub lex_lt-escape_past :
    (a b x : Bytes) → lex_lt (escape a ++ 0 ∷ 1 ∷ x) (escape b ++ 0 ∷ 2 ∷ []) ≡ not (lex_lt b a)
lex_lt-escape_past [] [] x = refl
lex_lt-escape_past [] (c ∷ b) x = ground arith
lex_lt-escape_past (c ∷ a) [] x = ground arith
lex_lt-escape_past (c ∷ a) (d ∷ b) x = ground (arith, lex_lt-escape_past a b x)

walk-suc : (seen n b c : ℕ) (rest : Bytes) → walk seen n (suc b ∷ c ∷ rest) ≡ walk seen n (c ∷ rest)
unfolding walk
walk-suc seen n b c rest = ground arith

-- The walk over one part of an entry ends behind its terminator.
pub walk-escape :
    (seen n : ℕ) (a x : Bytes)
    → walk seen n (escape a ++ 0 ∷ 1 ∷ x)
      ≡ (if suc seen == n then from_utf8 x else walk (suc seen) n x)
unfolding walk
walk-escape seen n [] x = refl
walk-escape seen n (zero ∷ a) x = walk-escape seen n a x
walk-escape seen n (suc b ∷ []) x =
    ap (λ (l : Bytes). walk seen n (l ++ 0 ∷ 1 ∷ x)) (escape-suc b [])
    ∙ walk-suc seen n b 0 (1 ∷ x)
    ∙ walk-escape seen n [] x
walk-escape seen n (suc b ∷ c ∷ a) x =
    ap (λ (l : Bytes). walk seen n (l ++ 0 ∷ 1 ∷ x)) (escape-suc b (c ∷ a))
    ∙ walk-suc seen n b c ((if c == 0x00 then 0xff ∷ escape a else escape a) ++ 0 ∷ 1 ∷ x)
    ∙ walk-escape seen n (c ∷ a) x
