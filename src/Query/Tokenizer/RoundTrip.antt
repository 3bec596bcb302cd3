-- ===== src/Query/Tokenizer/RoundTrip.antt =====
-- Spelled tokens are read back by the scanner (crates/query/src/tokenizer.rs).
use dllb.Common.{
  ℕ, zero, suc, ◌≤◌, List, [], ◌∷◌, ◌++◌, true, false, Option, some, ◌≡◌, refl, arith, All, ◌==◌,
  not, length, length-append, ap,
}
use dllb.Core.{ok}
use dllb.Query.Tokens.{Chars, Token, is_whitespace, next_is, skip}
use dllb.Query.Tokenizer.{is_comment, step, tokenize_from, tokenize}
use dllb.Query.Tokenizer.Spelling.{Spelled, nothing, then_token, then_blank, then_comment}
use dllb.Query.Tokenizer.Reads.{span-append, Reads, Spells-Reads}

module _ (parse_f64 : Chars → Option ℕ) where
  step-blank : (c : ℕ) (rest : Chars) → is_whitespace c ≡ true → step parse_f64 c rest ≡ skip rest
  unfolding step
  step-blank c rest h = rw (h, step) refl

  is_comment-comment :
      (text rest : Chars)
      → next_is (λ d. d == b'>') text ≡ false
      → is_comment b'-' (b'-' ∷ (text ++ b'\n' ∷ rest)) ≡ true
  unfolding is_comment
  is_comment-comment [] rest h = refl
  is_comment-comment (c ∷ text) rest h = ground arith

  step-comment :
      (text rest : Chars)
      → All (λ d. not (d == b'\n') ≡ true) text
      → next_is (λ d. d == b'>') text ≡ false
      → step parse_f64 b'-' (b'-' ∷ (text ++ b'\n' ∷ rest)) ≡ skip (b'\n' ∷ rest)
  unfolding step is_whitespace
  step-comment text rest h k = rw (is_comment-comment text rest k) (
      ap (λ x. skip x.1)
        (span-append (λ d. not (d == b'\n')) (b'-' ∷ b'-' ∷ text) rest b'\n' (refl, (refl, h))
          refl))

  -- the rounds on what is left
  abbrev Reading : List Token → Chars → Type 0
  Reading tokens more =
      (fuel : ℕ) → length more ≤ fuel → tokenize_from parse_f64 fuel more ≡ some (ok tokens)

  blank_round :
      (c : ℕ) (tokens : List Token) (more : Chars)
      → is_whitespace c ≡ true
      → Reading tokens more
      → Reading tokens (c ∷ more)
  unfolding tokenize_from
  blank_round c tokens more h next zero le = absurd (omega arith)
  blank_round c tokens more h next (suc fuel) le =
      rw (step-blank c more h) (next fuel (omega arith))

  token_round :
      (t : Token) (text : Chars) (tokens : List Token) (more : Chars)
      → Reads parse_f64 t text
      → Reading tokens more
      → Reading (t ∷ tokens) (text ++ b' ' ∷ more)
  unfolding tokenize_from is_whitespace
  token_round t [] tokens more reads next fuel le = absurd reads
  token_round t (c ∷ text) tokens more reads next zero le = absurd (omega arith)
  token_round t (c ∷ text) tokens more reads next (suc fuel) le = rw (reads more) (
      rw
        (blank_round b' ' tokens more refl next fuel
          (omega (arith, length-append text (b' ' ∷ more))))
        refl)

  comment_round :
      (text : Chars) (tokens : List Token) (more : Chars)
      → All (λ d. not (d == b'\n') ≡ true) text
      → next_is (λ d. d == b'>') text ≡ false
      → Reading tokens more
      → Reading tokens (b'-' ∷ b'-' ∷ (text ++ b'\n' ∷ more))
  unfolding tokenize_from is_whitespace
  comment_round text tokens more h k next zero le = absurd (omega arith)
  comment_round text tokens more h k next (suc fuel) le = rw (step-comment text more h k) (
      blank_round b'\n' tokens more refl next fuel
        (omega (arith, length-append text (b'\n' ∷ more))))

  Spelled-Reading :
      (tokens : List Token) (input : Chars) → Spelled parse_f64 tokens input → Reading tokens input
  unfolding tokenize_from
  Spelled-Reading tokens input nothing = λ fuel le. refl
  Spelled-Reading whole all (then_token {t} {tokens = tokens} {text = text} {more = more} h rest) =
      token_round t text tokens more (Spells-Reads parse_f64 t text h)
        (Spelled-Reading tokens more rest)
  Spelled-Reading tokens all (then_blank {more = more} c h rest) =
      blank_round c tokens more h (Spelled-Reading tokens more rest)
  Spelled-Reading tokens all (then_comment {more = more} text h k rest) =
      comment_round text tokens more h k (Spelled-Reading tokens more rest)

  -- A text that spells tokens is read as these tokens: symbols, keywords in any case, names
  -- that are no keyword in any case, strings in either quotes, integers that fit 64 bits as
  -- their decimal digits, with zeros in front or not, and decimals with a fraction that `f64`
  -- parses, each with a blank behind it, with blanks and comments between them.
  pub tokenize-Spelled :
      (tokens : List Token) (input : Chars)
      → Spelled parse_f64 tokens input
      → tokenize parse_f64 input ≡ some (ok tokens)
  unfolding tokenize
  tokenize-Spelled tokens input h = Spelled-Reading tokens input h (length input) (omega arith)
