-- ===== src/Query/Tokenizer/Spelling.antt =====
-- The texts of tokens, as a grammar beside the scanner of crates/query/src/tokenizer.rs.
use dllb.Common.{
  ℕ, suc, ◌+◌, ◌-◌, ◌*◌, ◌≤◌, ◌<◌, ◌^◌, length, Member, List, [], ◌∷◌, ◌++◌, true, false, Option,
  none, some, ◌≡◌, All, ◌==◌, ◌⊎◌, not,
}
use dllb.Common.Int.{pos, negsuc}
use dllb.Query.Tokens.{
  Chars, Token, create, select, delete, relate, from, where_token, set, and, on, conflict, update,
  limit, outcome, graph, communities, components, count, is, not_token, true_token, false_token,
  none_token, ident, string_lit, int_lit, float_lit, star, comma, semicolon, colon, eq, ne, gt, lt,
  gte, lte, arrow, back_arrow, dot, lbracket, rbracket, lparen, rparen, is_whitespace, next_is,
}

unfoldable pub symbol_text : Token → Option Chars
symbol_text star = some (b'*' ∷ [])
symbol_text comma = some (b',' ∷ [])
symbol_text semicolon = some (b';' ∷ [])
symbol_text colon = some (b':' ∷ [])
symbol_text eq = some (b'=' ∷ [])
symbol_text ne = some (b'!' ∷ b'=' ∷ [])
symbol_text gt = some (b'>' ∷ [])
symbol_text lt = some (b'<' ∷ [])
symbol_text gte = some (b'>' ∷ b'=' ∷ [])
symbol_text lte = some (b'<' ∷ b'=' ∷ [])
symbol_text arrow = some (b'-' ∷ b'>' ∷ [])
symbol_text back_arrow = some (b'<' ∷ b'-' ∷ [])
symbol_text dot = some (b'.' ∷ [])
symbol_text lbracket = some (b'[' ∷ [])
symbol_text rbracket = some (b']' ∷ [])
symbol_text lparen = some (b'(' ∷ [])
symbol_text rparen = some (b')' ∷ [])
symbol_text _ = none

-- the classes of chars
abbrev pub IsDigit : ℕ → Type 0
IsDigit c = (b'0' ≤ c) × (c ≤ b'9')

abbrev pub IsLetter : ℕ → Type 0
IsLetter c = ((b'a' ≤ c) × (c ≤ b'z')) ⊎ ((b'A' ≤ c) × (c ≤ b'Z'))

abbrev pub IsWordChar : ℕ → Type 0
IsWordChar c = IsLetter c ⊎ (IsDigit c ⊎ (c ≡ b'_'))

-- a word, and the same in lower case
abbrev pub AnyCase : Chars → Chars → Type 0
AnyCase [] [] = Unit
AnyCase (k ∷ lower) (c ∷ word) = ((c ≡ k) ⊎ (c + 32 ≡ k)) × AnyCase lower word
AnyCase _ _ = ⊥

-- the keywords of a token, in lower case
unfoldable pub keyword_texts : Token → List Chars
keyword_texts create = (b'c' ∷ b'r' ∷ b'e' ∷ b'a' ∷ b't' ∷ b'e' ∷ []) ∷ []
keyword_texts select = (b's' ∷ b'e' ∷ b'l' ∷ b'e' ∷ b'c' ∷ b't' ∷ []) ∷ []
keyword_texts delete = (b'd' ∷ b'e' ∷ b'l' ∷ b'e' ∷ b't' ∷ b'e' ∷ []) ∷ []
keyword_texts relate = (b'r' ∷ b'e' ∷ b'l' ∷ b'a' ∷ b't' ∷ b'e' ∷ []) ∷ []
keyword_texts from = (b'f' ∷ b'r' ∷ b'o' ∷ b'm' ∷ []) ∷ []
keyword_texts where_token = (b'w' ∷ b'h' ∷ b'e' ∷ b'r' ∷ b'e' ∷ []) ∷ []
keyword_texts set = (b's' ∷ b'e' ∷ b't' ∷ []) ∷ []
keyword_texts and = (b'a' ∷ b'n' ∷ b'd' ∷ []) ∷ []
keyword_texts on = (b'o' ∷ b'n' ∷ []) ∷ []
keyword_texts conflict = (b'c' ∷ b'o' ∷ b'n' ∷ b'f' ∷ b'l' ∷ b'i' ∷ b'c' ∷ b't' ∷ []) ∷ []
keyword_texts update = (b'u' ∷ b'p' ∷ b'd' ∷ b'a' ∷ b't' ∷ b'e' ∷ []) ∷ []
keyword_texts limit = (b'l' ∷ b'i' ∷ b'm' ∷ b'i' ∷ b't' ∷ []) ∷ []
keyword_texts outcome = (b'o' ∷ b'u' ∷ b't' ∷ b'c' ∷ b'o' ∷ b'm' ∷ b'e' ∷ []) ∷ []
keyword_texts graph = (b'g' ∷ b'r' ∷ b'a' ∷ b'p' ∷ b'h' ∷ []) ∷ []
keyword_texts communities =
    (b'c' ∷ b'o' ∷ b'm' ∷ b'm' ∷ b'u' ∷ b'n' ∷ b'i' ∷ b't' ∷ b'i' ∷ b'e' ∷ b's' ∷ []) ∷ []
keyword_texts components =
    (b'c' ∷ b'o' ∷ b'm' ∷ b'p' ∷ b'o' ∷ b'n' ∷ b'e' ∷ b'n' ∷ b't' ∷ b's' ∷ []) ∷ []
keyword_texts count = (b'c' ∷ b'o' ∷ b'u' ∷ b'n' ∷ b't' ∷ []) ∷ []
keyword_texts is = (b'i' ∷ b's' ∷ []) ∷ []
keyword_texts not_token = (b'n' ∷ b'o' ∷ b't' ∷ []) ∷ []
keyword_texts true_token = (b't' ∷ b'r' ∷ b'u' ∷ b'e' ∷ []) ∷ []
keyword_texts false_token = (b'f' ∷ b'a' ∷ b'l' ∷ b's' ∷ b'e' ∷ []) ∷ []
keyword_texts none_token = (b'n' ∷ b'o' ∷ b'n' ∷ b'e' ∷ []) ∷ (b'n' ∷ b'u' ∷ b'l' ∷ b'l' ∷ []) ∷ []
keyword_texts _ = []

-- the tokens that are keywords
abbrev pub keyword_tokens : List Token
keyword_tokens =
    create ∷ select ∷ delete ∷ relate ∷ from ∷ where_token ∷ set ∷ and ∷ on ∷ conflict ∷ update
    ∷ limit ∷ outcome ∷ graph ∷ communities ∷ components ∷ count ∷ is ∷ not_token ∷ true_token
    ∷ false_token ∷ none_token ∷ []

-- what is a keyword in some case cannot be a name
abbrev pub IsFree : Chars → List Token → Type 0
IsFree word = All (λ t. All (λ lower. ¬ AnyCase lower word) (keyword_texts t))

-- the number that digits write
abbrev pub value : Chars → ℕ
value [] = 0
value (d ∷ digits) = (d - b'0') * 10 ^ length digits + value digits

-- the texts of a token: a word of any case, a string in either quotes, digits with a sign or a
-- fraction
pub data Spells (parse_f64 : Chars → Option ℕ) : Token → Chars → Type 0 where
  symbol : {t : Token} {text : Chars} → symbol_text t ≡ some text → Spells parse_f64 t text
  a_keyword :
      {t : Token} (lower word : Chars)
      → Member lower (keyword_texts t)
      → AnyCase lower word
      → Spells parse_f64 t word
  name :
      (c : ℕ) (word : Chars)
      → IsLetter c ⊎ (c ≡ b'_')
      → All IsWordChar word
      → IsFree (c ∷ word) keyword_tokens
      → Spells parse_f64 (ident (c ∷ word)) (c ∷ word)
  quoted :
      (quote : ℕ) (text : Chars)
      → (quote ≡ b'\'') ⊎ (quote ≡ b'"')
      → All (λ d. not (d == quote) ≡ true) text
      → Spells parse_f64 (string_lit text) (quote ∷ (text ++ quote ∷ []))
  natural :
      (d : ℕ) (digits : Chars)
      → All IsDigit (d ∷ digits)
      → value (d ∷ digits) < 2 ^ 63
      → Spells parse_f64 (int_lit (pos (value (d ∷ digits)))) (d ∷ digits)
  negative :
      (d : ℕ) (digits : Chars) (m : ℕ)
      → All IsDigit (d ∷ digits)
      → value (d ∷ digits) ≡ suc m
      → m < 2 ^ 63
      → Spells parse_f64 (int_lit (negsuc m)) (b'-' ∷ d ∷ digits)
  decimal :
      (d : ℕ) (digits part : Chars) (f : ℕ)
      → All IsDigit (d ∷ digits)
      → All IsDigit part
      → parse_f64 (d ∷ (digits ++ (b'.' ∷ part))) ≡ some f
      → Spells parse_f64 (float_lit f) (d ∷ (digits ++ (b'.' ∷ part)))

-- A text of tokens: a blank behind each, and blanks and comments anywhere between them.
pub data Spelled (parse_f64 : Chars → Option ℕ) : List Token → Chars → Type 0 where
  nothing : Spelled parse_f64 [] []
  then_token :
      {t : Token} {tokens : List Token} {text more : Chars}
      → Spells parse_f64 t text
      → Spelled parse_f64 tokens more
      → Spelled parse_f64 (t ∷ tokens) (text ++ b' ' ∷ more)
  then_blank :
      {tokens : List Token} {more : Chars} (c : ℕ)
      → is_whitespace c ≡ true
      → Spelled parse_f64 tokens more
      → Spelled parse_f64 tokens (c ∷ more)
  then_comment :
      {tokens : List Token} {more : Chars} (text : Chars)
      → All (λ d. not (d == b'\n') ≡ true) text
      → next_is (λ d. d == b'>') text ≡ false
      → Spelled parse_f64 tokens more
      → Spelled parse_f64 tokens (b'-' ∷ b'-' ∷ (text ++ b'\n' ∷ more))
