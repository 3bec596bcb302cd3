-- ===== src/Query/Tokenizer/Reads.antt =====
-- A spelled token with a blank behind it is read by one round of the scanner
-- (crates/query/src/tokenizer.rs).
use dllb.Common.{
  ℕ, suc, ◌≤◌, ◌<◌, ◌^◌, [], ◌∷◌, ◌++◌, Bool, true, false, Option, none, some, ◌≡◌, refl, arith,
  All, ◌==◌, ◌||◌, ◌⊎◌, inl, inr, not, append_assoc, append-nil, ap, ◌∙◌, leb, ltb, Member,
}
use dllb.Common.Int.{ℤ, pos, negsuc}
use dllb.Query.Tokens.{
  Chars, Token, between, string_lit, int_lit, float_lit, star, comma, semicolon, colon, eq, ne, gt,
  lt, gte, lte, arrow, back_arrow, dot, lbracket, rbracket, lparen, rparen, is_whitespace,
  is_ascii_digit, is_ascii_alphabetic, is_word_char, span, push,
}
use dllb.Query.Tokenizer.{
  digits_value, is_comment, two_char_token, one_char_token, string_step, fraction, exponent,
  parse_i64, number_step, word_step, word_token, literal_step, step,
}
use dllb.Query.Tokenizer.Spelling.{
  symbol_text, AnyCase, keyword_texts, value, Spells, symbol, a_keyword, name, quoted, natural,
  negative, decimal,
}
use dllb.Query.Tokenizer.Words.{
  keyword-AnyCase, keyword-IsFree, AnyCase-letters, All-letters, All-IsWordChar, All-IsDigit,
  digits_value-value,
}

pub span-append :
    (p : ℕ → Bool) (text rest : Chars) (c : ℕ)
    → All (λ d. p d ≡ true) text
    → p c ≡ false
    → span p (text ++ c ∷ rest) ≡ (text, c ∷ rest)
unfolding span
span-append p [] rest c h f = rw f refl
span-append p (d ∷ text) rest c h f = rw h.0 (rw (span-append p text rest c h.1 f) refl)

-- where the chars of words are
word_range :
    (c : ℕ)
    → is_word_char c ≡ true
    → (48 ≤ c) × (c ≤ 122) × ((c ≤ 57) ⊎ (65 ≤ c)) × ((c == 91) ≡ false) × ((c == 93) ≡ false)
word_range c h = ground arith

module _ (c : ℕ) (rest : Chars) (h : is_word_char c ≡ true) where
  is_whitespace-word : is_whitespace c ≡ false
  unfolding is_whitespace
  is_whitespace-word =
      let low : between 9 13 c ≡ false = ground (arith, word_range c h) in
      let high : between 0x2000 0x200a c ≡ false = ground (arith, word_range c h) in
      rw low (rw high (ground (arith, word_range c h)))

  is_comment-word : is_comment c rest ≡ false
  unfolding is_comment
  is_comment-word = ground (arith, word_range c h)

  two_char_token-word : two_char_token c rest ≡ none
  unfolding two_char_token
  two_char_token-word = ground (arith, word_range c h)

  one_char_token-word : one_char_token c ≡ none
  unfolding one_char_token
  one_char_token-word = ground (arith, word_range c h)

  plain_step :
      (parse_f64 : Chars → Option ℕ) → step parse_f64 c rest ≡ literal_step parse_f64 c rest
  unfolding step
  plain_step parse_f64 =
      rw (is_whitespace-word, is_comment-word, two_char_token-word, one_char_token-word, step) refl

module _ (parse_f64 : Chars → Option ℕ) where
  literal_step-letter :
      (c : ℕ) (rest : Chars)
      → (is_ascii_alphabetic c || c == b'_') ≡ true
      → literal_step parse_f64 c rest ≡ word_step (c ∷ rest)
  unfolding literal_step
  literal_step-letter c rest h = ground arith

  word_step-span :
      (word rest : Chars)
      → All (λ d. is_word_char d ≡ true) word
      → word_step (word ++ b' ' ∷ rest) ≡ push (word_token word) (b' ' ∷ rest)
  unfolding word_step
  word_step-span word rest h = rw (span-append is_word_char word rest b' ' h refl) refl

  -- a word, with a blank behind it
  word_lem :
      (c : ℕ) (word rest : Chars)
      → (is_ascii_alphabetic c || c == b'_') ≡ true
      → All (λ d. is_word_char d ≡ true) word
      → step parse_f64 c (word ++ b' ' ∷ rest) ≡ push (word_token (c ∷ word)) (b' ' ∷ rest)
  word_lem c word rest letter h =
      plain_step c (word ++ b' ' ∷ rest) (ground arith) parse_f64
      ∙ (literal_step-letter c (word ++ b' ' ∷ rest) letter
          ∙ word_step-span (c ∷ word) rest (ground arith, h))

  -- a number without a sign
  number_lem :
      (d : ℕ) (digits : Chars)
      → is_ascii_digit d ≡ true
      → step parse_f64 d digits ≡ number_step parse_f64 false (d ∷ digits)
  unfolding literal_step
  number_lem d digits h = plain_step d digits (ground arith) parse_f64 ∙ ground arith

  number_step-int :
      (is_negative : Bool) (digits rest : Chars) (n : ℤ)
      → All (λ d. is_ascii_digit d ≡ true) digits
      → parse_i64 is_negative digits ≡ some n
      → number_step parse_f64 is_negative (digits ++ b' ' ∷ rest) ≡ push (int_lit n) (b' ' ∷ rest)
  unfolding number_step fraction exponent
  number_step-int is_negative digits rest n h e =
      rw (span-append is_ascii_digit digits rest b' ' h refl) (rw e refl)

  number_step-float :
      (digits part rest : Chars) (f : ℕ)
      → All (λ d. is_ascii_digit d ≡ true) digits
      → All (λ d. is_ascii_digit d ≡ true) part
      → parse_f64 (digits ++ (b'.' ∷ part)) ≡ some f
      → number_step parse_f64 false (digits ++ (b'.' ∷ (part ++ b' ' ∷ rest)))
        ≡ push (float_lit f) (b' ' ∷ rest)
  unfolding number_step fraction exponent
  number_step-float digits part rest f h k e =
      rw (span-append is_ascii_digit digits (part ++ b' ' ∷ rest) b'.' h refl)
        (rw (span-append is_ascii_digit part rest b' ' k refl) (rw (append-nil part) (rw e refl)))

  negative_lem :
      (d : ℕ) (digits : Chars)
      → is_ascii_digit d ≡ true
      → step parse_f64 b'-' (d ∷ digits) ≡ number_step parse_f64 true (d ∷ digits)
  unfolding step literal_step is_whitespace is_comment two_char_token one_char_token
  negative_lem d digits h = ground arith

  string_step-span :
      (quote : ℕ) (text rest : Chars)
      → All (λ d. not (d == quote) ≡ true) text
      → string_step quote (text ++ quote ∷ b' ' ∷ rest) ≡ push (string_lit text) (b' ' ∷ rest)
  unfolding string_step
  string_step-span quote text rest h =
      rw (span-append (λ d. not (d == quote)) text (b' ' ∷ rest) quote h (ground arith)) refl

  quote_lem :
      (quote : ℕ) (rest : Chars)
      → (quote ≡ b'\'') ⊎ (quote ≡ b'"')
      → step parse_f64 quote rest ≡ string_step quote rest
  unfolding step literal_step is_whitespace is_comment two_char_token one_char_token
  quote_lem quote rest (inl e) = rw e refl
  quote_lem quote rest (inr e) = rw e refl

  -- the text of a token, and a blank, is read as the token
  abbrev pub Reads : Token → Chars → Type 0
  Reads t [] = ⊥
  Reads t (c ∷ text) =
      (rest : Chars) → step parse_f64 c (text ++ b' ' ∷ rest) ≡ push t (b' ' ∷ rest)

  same_text : {known text : Chars} → some known ≡ some text → text ≡ known
  same_text e = cc

  symbol-Reads : (t : Token) (text : Chars) → symbol_text t ≡ some text → Reads t text
  unfolding symbol_text step is_whitespace is_comment two_char_token one_char_token
  symbol-Reads star text e = rw (same_text e) (λ rest. refl)
  symbol-Reads comma text e = rw (same_text e) (λ rest. refl)
  symbol-Reads semicolon text e = rw (same_text e) (λ rest. refl)
  symbol-Reads colon text e = rw (same_text e) (λ rest. refl)
  symbol-Reads eq text e = rw (same_text e) (λ rest. refl)
  symbol-Reads ne text e = rw (same_text e) (λ rest. refl)
  symbol-Reads gt text e = rw (same_text e) (λ rest. refl)
  symbol-Reads lt text e = rw (same_text e) (λ rest. refl)
  symbol-Reads gte text e = rw (same_text e) (λ rest. refl)
  symbol-Reads lte text e = rw (same_text e) (λ rest. refl)
  symbol-Reads arrow text e = rw (same_text e) (λ rest. refl)
  symbol-Reads back_arrow text e = rw (same_text e) (λ rest. refl)
  symbol-Reads dot text e = rw (same_text e) (λ rest. refl)
  symbol-Reads lbracket text e = rw (same_text e) (λ rest. refl)
  symbol-Reads rbracket text e = rw (same_text e) (λ rest. refl)
  symbol-Reads lparen text e = rw (same_text e) (λ rest. refl)
  symbol-Reads rparen text e = rw (same_text e) (λ rest. refl)
  symbol-Reads _ text e = absurd cc

  parse_i64-positive :
      (digits : Chars) → value digits < 2 ^ 63 → parse_i64 false digits ≡ some (pos (value digits))
  unfolding parse_i64
  parse_i64-positive digits small =
      let same = digits_value-value digits in
      let fits : ltb (value digits) (2 ^ 63) ≡ true = ground arith in rw same (rw fits refl)

  parse_i64-negative :
      (digits : Chars) (m : ℕ)
      → value digits ≡ suc m
      → m < 2 ^ 63
      → parse_i64 true digits ≡ some (negsuc m)
  unfolding parse_i64
  parse_i64-negative digits m e small =
      let same : digits_value 0 digits ≡ suc m = digits_value-value digits ∙ e in
      let fits : leb (suc m) (2 ^ 63) ≡ true = ground arith in rw same (rw fits refl)

  keyword-Reads :
      (t : Token) (lower word : Chars)
      → Member lower (keyword_texts t)
      → AnyCase lower word
      → Reads t word
  unfolding word_token
  keyword-Reads t [] [] m same = absurd (ground (arith, (keyword-AnyCase t [] [] m same).2))
  keyword-Reads t (k ∷ lower) [] m same = absurd same
  keyword-Reads t [] (c ∷ word) m same = absurd same
  keyword-Reads t (k ∷ lower) (c ∷ word) m same =
      let known = keyword-AnyCase t (k ∷ lower) (c ∷ word) m same in
      let letters = AnyCase-letters (k ∷ lower) (c ∷ word) known.1 same in
      let found = known.0 in
      λ rest.
        word_lem c word rest (ground (arith, letters.0)) (All-letters word letters.1)
        ∙ ap (λ x. push x (b' ' ∷ rest)) (rw (found, word_token) refl)

  pub Spells-Reads : (t : Token) (text : Chars) → Spells parse_f64 t text → Reads t text
  unfolding word_token
  Spells-Reads t text (symbol e) = symbol-Reads t text e
  Spells-Reads t text (a_keyword lower word m same) = keyword-Reads t lower text m same
  Spells-Reads t whole (name c word h k free) =
      let unknown = keyword-IsFree (c ∷ word) free in
      λ rest.
        word_lem c word rest (ground arith) (All-IsWordChar word k)
        ∙ ap (λ x. push x (b' ' ∷ rest)) (rw (unknown, word_token) refl)
  Spells-Reads t whole (quoted quote text q h) = λ rest.
      ap (step parse_f64 quote) (append_assoc text (quote ∷ []) (b' ' ∷ rest))
      ∙ (quote_lem quote (text ++ quote ∷ b' ' ∷ rest) q ∙ string_step-span quote text rest h)
  Spells-Reads t whole (natural d digits h small) =
      let all = All-IsDigit (d ∷ digits) h in
      λ rest.
        number_lem d (digits ++ b' ' ∷ rest) all.0
        ∙ number_step-int false (d ∷ digits) rest (pos (value (d ∷ digits))) all
            (parse_i64-positive (d ∷ digits) small)
  Spells-Reads t whole (negative d digits m h e small) =
      let all = All-IsDigit (d ∷ digits) h in
      λ rest.
        negative_lem d (digits ++ b' ' ∷ rest) all.0
        ∙ number_step-int true (d ∷ digits) rest (negsuc m) all
            (parse_i64-negative (d ∷ digits) m e small)
  Spells-Reads t whole (decimal d digits part f h k e) =
      let all = All-IsDigit (d ∷ digits) h in
      λ rest.
        ap (step parse_f64 d) (append_assoc digits (b'.' ∷ part) (b' ' ∷ rest))
        ∙ (number_lem d (digits ++ (b'.' ∷ (part ++ b' ' ∷ rest))) all.0
            ∙ number_step-float (d ∷ digits) part rest f all (All-IsDigit part k) e)
