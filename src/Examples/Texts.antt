-- ===== src/Examples/Texts.antt =====
-- The tokenizer at concrete texts.
use dllb.Common.{ℕ, List, [], ◌∷◌, ◌++◌, Option, none, some, ◌≡◌, refl, arith, inl, inr}
use dllb.Common.Int.{negsuc}
use dllb.Core.{Result, ok, err, query, unterminated_string}
use dllb.Query.Tokens.{
  Chars, Token, select, from, star, ident, string_lit, int_lit, true_token, arrow, semicolon,
  is_whitespace, span,
}
use dllb.Query.Tokenizer.{
  is_comment, two_char_token, one_char_token, string_step, number_step, word_step, word_token,
  literal_step, step, tokenize_from, tokenize,
}
use dllb.Query.Tokenizer.Spelling.{
  symbol_text, keyword_texts, keyword_tokens, IsFree, Spelled, symbol, a_keyword, name, quoted,
  negative, nothing, then_token, then_comment,
}
use dllb.Query.Tokenizer.Total.{tokenize_total}
use dllb.Query.Tokenizer.RoundTrip.{tokenize-Spelled}

-- no floats
abbrev no_f64 : Chars → Option ℕ
no_f64 text = none

-- `select * FROM u --x` and, on the next line, `-12 "a"`
abbrev some_tokens : List Token
some_tokens =
    select ∷ star ∷ from ∷ ident (b'u' ∷ []) ∷ int_lit (negsuc 11) ∷ string_lit (b'a' ∷ []) ∷ []

abbrev some_text : Chars
some_text =
    (b's' ∷ b'e' ∷ b'l' ∷ b'e' ∷ b'c' ∷ b't' ∷ [])
    ++ b' '
      ∷ ((b'*' ∷ [])
          ++ b' '
            ∷ ((b'F' ∷ b'R' ∷ b'O' ∷ b'M' ∷ [])
                ++ b' '
                  ∷ ((b'u' ∷ [])
                      ++ b' '
                        ∷ (b'-'
                            ∷ b'-'
                            ∷ ((b'x' ∷ [])
                                ++ b'\n'
                                  ∷ ((b'-' ∷ b'1' ∷ b'2' ∷ [])
                                      ++ b' '
                                        ∷ ((b'"' ∷ ((b'a' ∷ []) ++ b'"' ∷ [])) ++ b' ' ∷ [])))))))

no : {A : Type 0} → A × ⊥ → ⊥
no (_, more) = more

-- no keyword is one letter long
u-IsFree : IsFree (b'u' ∷ []) keyword_tokens
unfolding keyword_texts
u-IsFree = (
  (no, tt),
  (
    (no, tt),
    (
      (no, tt),
      (
        (no, tt),
        (
          (no, tt),
          (
            (no, tt),
            (
              (no, tt),
              (
                (no, tt),
                (
                  (no, tt),
                  (
                    (no, tt),
                    (
                      (no, tt),
                      (
                        (no, tt),
                        (
                          (no, tt),
                          (
                            (no, tt),
                            (
                              (no, tt),
                              (
                                (no, tt),
                                (
                                  (no, tt),
                                  (
                                    (no, tt),
                                    ((no, tt), ((no, tt), ((no, tt), ((no, (no, tt)), tt)))),
                                  ),
                                ),
                              ),
                            ),
                          ),
                        ),
                      ),
                    ),
                  ),
                ),
              ),
            ),
          ),
        ),
      ),
    ),
  ),
)

some_text-Spelled : Spelled no_f64 some_tokens some_text
unfolding symbol_text keyword_texts
some_text-Spelled =
    then_token
      (a_keyword (b's' ∷ b'e' ∷ b'l' ∷ b'e' ∷ b'c' ∷ b't' ∷ [])
        (b's' ∷ b'e' ∷ b'l' ∷ b'e' ∷ b'c' ∷ b't' ∷ []) (inl refl)
        (inl refl, (inl refl, (inl refl, (inl refl, (inl refl, (inl refl, tt)))))))
      (then_token (symbol refl) (
        then_token
          (a_keyword (b'f' ∷ b'r' ∷ b'o' ∷ b'm' ∷ []) (b'F' ∷ b'R' ∷ b'O' ∷ b'M' ∷ []) (inl refl)
            (inr refl, (inr refl, (inr refl, (inr refl, tt)))))
          (then_token (name b'u' [] (inl (inl (omega arith, omega arith))) tt u-IsFree) (
            then_comment (b'x' ∷ []) (refl, tt) refl
              (then_token
                (negative b'1' (b'2' ∷ []) 11
                  ((omega arith, omega arith), ((omega arith, omega arith), tt)) refl (omega arith))
                (then_token (quoted b'"' (b'a' ∷ []) (inr refl) (refl, tt)) nothing))))))

tokenize-Spelled_example : tokenize no_f64 some_text ≡ some (ok some_tokens)
tokenize-Spelled_example = tokenize-Spelled no_f64 some_tokens some_text some_text-Spelled

-- `a='` has no closing quote
tokenize_total_example :
    (r : Result (List Token)) × (tokenize no_f64 (b'a' ∷ b'=' ∷ b'\'' ∷ []) ≡ some r)
tokenize_total_example = tokenize_total no_f64 (b'a' ∷ b'=' ∷ b'\'' ∷ [])

tokenize_test :
    (tokenize no_f64 (b'a' ∷ b'=' ∷ b'\'' ∷ []) ≡ some (err (query unterminated_string)))
    × (tokenize no_f64 (b'a' ∷ b'-' ∷ b'>' ∷ b't' ∷ b'r' ∷ b'U' ∷ b'e' ∷ b';' ∷ [])
        ≡ some (ok (ident (b'a' ∷ []) ∷ arrow ∷ true_token ∷ semicolon ∷ [])))
unfolding tokenize tokenize_from step literal_step word_step word_token number_step string_step span
    is_whitespace is_comment two_char_token one_char_token
tokenize_test = (refl, refl)
