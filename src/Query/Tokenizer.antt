-- ===== src/Query/Tokenizer.antt =====
-- crates/query/src/tokenizer.rs. What is left of the input stands for the index into it.
-- `f64::from_str` is a parameter.
pub mod Total
pub mod Spelling
pub mod Words
pub mod Reads
pub mod RoundTrip
use dllb.Common.{
  ℕ, zero, suc, ◌+◌, ◌-◌, ◌*◌, ◌^◌, List, [], ◌∷◌, ◌++◌, Bool, true, false, Option, none, some,
  ◌==◌, leb, ltb, not, ◌&&◌, ◌||◌, beq, length, map, if◌then◌else◌,
}
use dllb.Common.Int.{ℤ, pos, negsuc}
use dllb.Core.{
  Error, query, Message, unterminated_string, invalid_float, invalid_integer, unexpected_character,
  Result, ok, err,
}
use dllb.Query.Tokens.{
  Chars, Token, create, select, delete, relate, from, where_token, set, and, on, conflict, update,
  limit, outcome, graph, communities, components, count, is, not_token, ident, string_lit, int_lit,
  float_lit, true_token, false_token, none_token, star, comma, semicolon, colon, eq, ne, gt, lt,
  gte, lte, arrow, back_arrow, dot, lbracket, rbracket, lparen, rparen, between, is_whitespace,
  is_ascii_digit, is_ascii_alphabetic, is_word_char, next_is, span, tail, Step, skip, push, fail,
}

-- the comment test: `--` with no `>` behind it
unfoldable pub is_comment : ℕ → Chars → Bool
is_comment c rest =
    c == b'-' && (next_is (λ d. d == b'-') rest && not (next_is (λ d. d == b'>') (tail rest)))

unfoldable pub two_char_token : ℕ → Chars → Option Token
two_char_token c rest =
    if c == b'<' && next_is (λ d. d == b'-') rest
    then some back_arrow
    else if c == b'<' && next_is (λ d. d == b'=') rest
    then some lte
    else if c == b'>' && next_is (λ d. d == b'=') rest
    then some gte
    else if c == b'!' && next_is (λ d. d == b'=') rest
    then some ne
    else if c == b'-' && next_is (λ d. d == b'>') rest
    then some arrow
    else none

unfoldable pub one_char_token : ℕ → Option Token
one_char_token c =
    if c == b'*'
    then some star
    else if c == b','
    then some comma
    else if c == b';'
    then some semicolon
    else if c == b':'
    then some colon
    else if c == b'='
    then some eq
    else if c == b'.'
    then some dot
    else if c == b'>'
    then some gt
    else if c == b'<'
    then some lt
    else if c == b'['
    then some lbracket
    else if c == b']'
    then some rbracket
    else if c == b'('
    then some lparen
    else if c == b')'
    then some rparen
    else none

-- at the end of a string: there is a quote, or the input ended
abbrev pub close_string : Chars → Chars → Step
close_string text [] = fail (query unterminated_string)
close_string text (_ ∷ after) = push (string_lit text) after

-- behind the opening quote
unfoldable pub string_step : ℕ → Chars → Step
string_step quote rest = let text = span (λ d. not (d == quote)) rest in close_string text.0 text.1

-- `i64::from_str` of a sign and digits
abbrev pub digits_value : ℕ → Chars → ℕ
digits_value acc [] = acc
digits_value acc (d ∷ digits) = digits_value (acc * 10 + (d - b'0')) digits

unfoldable pub parse_i64 : Bool → Chars → Option ℤ
parse_i64 negative digits =
    let n = digits_value 0 digits in
    if negative
    then if leb n (2 ^ 63) then some (elim n [ zero ↦ pos 0 | suc m ↦ negsuc m ]) else none
    else if ltb n (2 ^ 63)
    then some (pos n)
    else none

-- the fraction: what is taken, and the rest
unfoldable pub fraction : Chars → Option Chars × Chars
fraction [] = (none, [])
fraction (c ∷ rest) =
    let digits = span is_ascii_digit rest in
    if c == b'.' then (some (c ∷ digits.0), digits.1) else (none, c ∷ rest)

-- behind the `e`: the optional sign, and at least one digit
unfoldable pub exponent_digits : Chars → Option (Chars × Chars)
exponent_digits rest =
    let digits = span is_ascii_digit rest in
    if next_is is_ascii_digit rest then some digits else none

unfoldable pub signed_digits : Chars → Option (Chars × Chars)
signed_digits [] = none
signed_digits (c ∷ rest) =
    if c == b'+' || c == b'-'
    then elim (exponent_digits rest) [ none ↦ none | some (d, after) ↦ some (c ∷ d, after) ]
    else exponent_digits (c ∷ rest)

unfoldable pub exponent : Chars → Option Chars × Chars
exponent [] = (none, [])
exponent (c ∷ rest) =
    if c == b'e' || c == b'E'
    then elim (signed_digits rest) [
      | none ↦ (none, c ∷ rest)
      | some (d, after) ↦ (some (c ∷ d), after)
    ]
    else (none, c ∷ rest)

abbrev pub taken : Option Chars → Chars
taken none = []
taken (some text) = text

abbrev pub is_taken : Option Chars → Bool
is_taken none = false
is_taken (some _) = true

abbrev pub int_token : Chars → Option ℤ → Chars → Step
int_token text none rest = fail (query (invalid_integer text))
int_token text (some n) rest = push (int_lit n) rest

abbrev pub float_token : Chars → Option ℕ → Chars → Step
float_token text none rest = fail (query (invalid_float text))
float_token text (some f) rest = push (float_lit f) rest

abbrev pub sign : Bool → Chars
sign true = b'-' ∷ []
sign false = []

module _ (parse_f64 : Chars → Option ℕ) where
  -- behind the sign
  unfoldable pub number_step : Bool → Chars → Step
  number_step negative rest =
      let whole = span is_ascii_digit rest in
      let part = fraction whole.1 in
      let power = exponent part.1 in
      let text = sign negative ++ (whole.0 ++ (taken part.0 ++ taken power.0)) in
      if is_taken part.0 || is_taken power.0
      then float_token text (parse_f64 text) power.1
      else int_token text (parse_i64 negative whole.0) power.1

-- `to_uppercase` of a word, whose chars are ASCII
abbrev pub to_upper : ℕ → ℕ
to_upper c = if between b'a' b'z' c then c - 32 else c

-- the keywords, spelled as they are matched
abbrev pub keywords : List (Chars × Token)
keywords =
    (b'C' ∷ b'R' ∷ b'E' ∷ b'A' ∷ b'T' ∷ b'E' ∷ [], create)
    ∷ (b'S' ∷ b'E' ∷ b'L' ∷ b'E' ∷ b'C' ∷ b'T' ∷ [], select)
    ∷ (b'D' ∷ b'E' ∷ b'L' ∷ b'E' ∷ b'T' ∷ b'E' ∷ [], delete)
    ∷ (b'R' ∷ b'E' ∷ b'L' ∷ b'A' ∷ b'T' ∷ b'E' ∷ [], relate)
    ∷ (b'F' ∷ b'R' ∷ b'O' ∷ b'M' ∷ [], from)
    ∷ (b'W' ∷ b'H' ∷ b'E' ∷ b'R' ∷ b'E' ∷ [], where_token)
    ∷ (b'S' ∷ b'E' ∷ b'T' ∷ [], set)
    ∷ (b'A' ∷ b'N' ∷ b'D' ∷ [], and)
    ∷ (b'O' ∷ b'N' ∷ [], on)
    ∷ (b'C' ∷ b'O' ∷ b'N' ∷ b'F' ∷ b'L' ∷ b'I' ∷ b'C' ∷ b'T' ∷ [], conflict)
    ∷ (b'U' ∷ b'P' ∷ b'D' ∷ b'A' ∷ b'T' ∷ b'E' ∷ [], update)
    ∷ (b'L' ∷ b'I' ∷ b'M' ∷ b'I' ∷ b'T' ∷ [], limit)
    ∷ (b'O' ∷ b'U' ∷ b'T' ∷ b'C' ∷ b'O' ∷ b'M' ∷ b'E' ∷ [], outcome)
    ∷ (b'G' ∷ b'R' ∷ b'A' ∷ b'P' ∷ b'H' ∷ [], graph)
    ∷ (b'C' ∷ b'O' ∷ b'M' ∷ b'M' ∷ b'U' ∷ b'N' ∷ b'I' ∷ b'T' ∷ b'I' ∷ b'E' ∷ b'S' ∷ [], communities)
    ∷ (b'C' ∷ b'O' ∷ b'M' ∷ b'P' ∷ b'O' ∷ b'N' ∷ b'E' ∷ b'N' ∷ b'T' ∷ b'S' ∷ [], components)
    ∷ (b'C' ∷ b'O' ∷ b'U' ∷ b'N' ∷ b'T' ∷ [], count)
    ∷ (b'I' ∷ b'S' ∷ [], is)
    ∷ (b'N' ∷ b'O' ∷ b'T' ∷ [], not_token)
    ∷ (b'T' ∷ b'R' ∷ b'U' ∷ b'E' ∷ [], true_token)
    ∷ (b'F' ∷ b'A' ∷ b'L' ∷ b'S' ∷ b'E' ∷ [], false_token)
    ∷ (b'N' ∷ b'O' ∷ b'N' ∷ b'E' ∷ [], none_token)
    ∷ (b'N' ∷ b'U' ∷ b'L' ∷ b'L' ∷ [], none_token)
    ∷ []

abbrev pub keyword : List (Chars × Token) → Chars → Option Token
keyword [] upper = none
keyword ((k, t) ∷ rest) upper = if beq k upper then some t else keyword rest upper

-- `match word.to_uppercase().as_str()`
unfoldable pub word_token : Chars → Token
word_token word = elim (keyword keywords (map to_upper word)) [ none ↦ ident word | some t ↦ t ]

unfoldable pub word_step : Chars → Step
word_step input = let word = span is_word_char input in push (word_token word.0) word.1

-- a token that is there is pushed
abbrev pub push_or : Option Token → Chars → Step → Step
push_or none after other = other
push_or (some t) after other = push t after

abbrev pub push_token : Token → Option (Result (List Token)) → Option (Result (List Token))
push_token t none = none
push_token t (some (err e)) = some (err e)
push_token t (some (ok tokens)) = some (ok (t ∷ tokens))

-- a round, and the rounds after it
abbrev pub go_on : Step → (Chars → Option (Result (List Token))) → Option (Result (List Token))
go_on (skip after) next = next after
go_on (push t after) next = push_token t (next after)
go_on (fail e) next = some (err e)

module _ (parse_f64 : Chars → Option ℕ) where
  -- behind the symbols: a string, a number, a word or an error
  unfoldable pub literal_step : ℕ → Chars → Step
  literal_step c rest =
      if c == b'\'' || c == b'"'
      then string_step c rest
      else if is_ascii_digit c
      then number_step parse_f64 false (c ∷ rest)
      else if c == b'-' && next_is is_ascii_digit rest
      then number_step parse_f64 true rest
      else if is_ascii_alphabetic c || c == b'_'
      then word_step (c ∷ rest)
      else fail (query (unexpected_character c))

  -- one round of the loop at the char `c`
  unfoldable pub step : ℕ → Chars → Step
  step c rest =
      if is_whitespace c
      then skip rest
      else if is_comment c rest
      then skip (span (λ d. not (d == b'\n')) (c ∷ rest)).1
      else push_or (two_char_token c rest) (tail rest)
          (push_or (one_char_token c) rest (literal_step c rest))

  -- the loop, with fuel: `none` says that it ran out
  unfoldable pub tokenize_from : ℕ → Chars → Option (Result (List Token))
  tokenize_from fuel [] = some (ok [])
  tokenize_from zero (c ∷ rest) = none
  tokenize_from (suc fuel) (c ∷ rest) = go_on (step c rest) (λ after. tokenize_from fuel after)

  -- A round takes a char or more, so the length of the input is fuel enough.
  unfoldable pub tokenize : Chars → Option (Result (List Token))
  tokenize input = tokenize_from (length input) input
