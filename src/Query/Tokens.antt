-- ===== src/Query/Tokens.antt =====
-- The tokens of crates/query/src/tokenizer.rs, and the tests and the scan that it makes of chars.
-- Texts are lists of chars (Unicode scalar values), as the function collects them; the `String` of a
-- token is its chars.
use dllb.Common.{ℕ, List, [], ◌∷◌, Bool, false, ◌==◌, leb, ◌&&◌, ◌||◌, if◌then◌else◌}
use dllb.Common.Int.{ℤ}
use dllb.Core.{Error}

abbrev pub Chars : Type 0
Chars = List ℕ

pub data Token : Type 0 where
  create select delete relate from where_token set and on conflict update limit outcome graph
        communities components count is not_token :
      Token
  ident string_lit : Chars → Token
  int_lit : ℤ → Token
  float_lit : ℕ → Token
  true_token false_token none_token : Token
  star comma semicolon colon eq ne gt lt gte lte arrow back_arrow dot lbracket rbracket lparen
        rparen :
      Token

-- the tests of `char`
abbrev pub between : ℕ → ℕ → ℕ → Bool
between lo hi c = leb lo c && leb c hi

unfoldable pub is_whitespace : ℕ → Bool
is_whitespace c =
    between 9 13 c
    || (c == 32
        || (c == 0x85
            || (c == 0xa0
                || (c == 0x1680
                    || (between 0x2000 0x200a c
                        || (c == 0x2028
                            || (c == 0x2029 || (c == 0x202f || (c == 0x205f || c == 0x3000)))))))))

abbrev pub is_ascii_digit : ℕ → Bool
is_ascii_digit = between b'0' b'9'

abbrev pub is_ascii_alphabetic : ℕ → Bool
is_ascii_alphabetic c = between b'a' b'z' c || between b'A' b'Z' c

abbrev pub is_word_char : ℕ → Bool
is_word_char c = is_ascii_alphabetic c || (is_ascii_digit c || c == b'_')

-- a test of the next char, false at the end
abbrev pub next_is : (ℕ → Bool) → Chars → Bool
next_is p [] = false
next_is p (c ∷ rest) = p c

-- `while i < chars.len() && p(chars[i])`: what was passed, and the rest
unfoldable pub span : (ℕ → Bool) → Chars → Chars × Chars
span p [] = ([], [])
span p (c ∷ rest) = let more = span p rest in if p c then (c ∷ more.0, more.1) else ([], c ∷ rest)

abbrev pub tail : Chars → Chars
tail [] = []
tail (_ ∷ rest) = rest

-- one round of the loop of `tokenize`: the token that is pushed or none, and the rest
pub data Step : Type 0 where
  skip : Chars → Step
  push : Token → Chars → Step
  fail : Error → Step
