-- ===== src/Query/Tokenizer/Total.antt =====
-- The tokenizer (crates/query/src/tokenizer.rs) ends on every input.
use dllb.Common.{
  ℕ, zero, suc, ◌≤◌, List, [], ◌∷◌, ◌++◌, Bool, true, false, Option, none, some, ◌≡◌, refl, arith,
  length, Bool-cases, Option-cases, inl, inr, ◌==◌, ◌&&◌, ◌||◌, not, if◌then◌else◌,
}
use dllb.Common.Int.{ℤ}
use dllb.Core.{Result, ok, err, Result-cases}
use dllb.Query.Tokens.{
  Chars, Token, is_whitespace, is_ascii_digit, is_ascii_alphabetic, is_word_char, next_is, span,
  tail, Step, skip, push, fail,
}
use dllb.Query.Tokenizer.{
  is_comment, two_char_token, one_char_token, close_string, string_step, fraction, exponent_digits,
  signed_digits, exponent, taken, is_taken, sign, int_token, float_token, parse_i64, number_step,
  word_step, literal_step, step, tokenize_from, tokenize, push_or, go_on,
}

-- what is left after a round is no longer than `n`
abbrev LeavesAtMost : ℕ → Step → Type 0
LeavesAtMost n (skip after) = length after ≤ n
LeavesAtMost n (push t after) = length after ≤ n
LeavesAtMost n (fail e) = Unit

span_le : (p : ℕ → Bool) (xs : Chars) → length (span p xs).1 ≤ length xs
unfolding span
span_le p [] = omega arith
span_le p (c ∷ rest) = ground (arith, span_le p rest)

tail_le : (xs : Chars) → length (tail xs) ≤ length xs
tail_le [] = omega arith
tail_le (c ∷ rest) = omega arith

LeavesAtMost-if :
    (n : ℕ) (b : Bool) (s t : Step)
    → (b ≡ true → LeavesAtMost n s)
    → (b ≡ false → LeavesAtMost n t)
    → LeavesAtMost n (if b then s else t)
LeavesAtMost-if n true s t h k = h refl
LeavesAtMost-if n false s t h k = k refl

span_first :
    (p : ℕ → Bool) (c : ℕ) (rest : Chars) → p c ≡ true → length (span p (c ∷ rest)).1 ≤ length rest
unfolding span
span_first p c rest h = rw h (span_le p rest)

LeavesAtMost-string :
    (n : ℕ) (text left : Chars) → length left ≤ n → LeavesAtMost n (close_string text left)
LeavesAtMost-string n text [] h = tt
LeavesAtMost-string n text (c ∷ after) h = omega arith

LeavesAtMost-int :
    (n : ℕ) (text : Chars) (v : Option ℤ) (left : Chars)
    → length left ≤ n
    → LeavesAtMost n (int_token text v left)
LeavesAtMost-int n text none left h = tt
LeavesAtMost-int n text (some v) left h = h

LeavesAtMost-float :
    (n : ℕ) (text : Chars) (v : Option ℕ) (left : Chars)
    → length left ≤ n
    → LeavesAtMost n (float_token text v left)
LeavesAtMost-float n text none left h = tt
LeavesAtMost-float n text (some v) left h = h

fraction_le : (xs : Chars) → length (fraction xs).1 ≤ length xs
unfolding fraction
fraction_le [] = omega arith
fraction_le (c ∷ rest) = ground (arith, span_le is_ascii_digit rest)

-- what an optional part leaves
abbrev PartAtMost : ℕ → Option (Chars × Chars) → Type 0
PartAtMost n none = Unit
PartAtMost n (some (d, after)) = length after ≤ n

exponent_digits_le : (xs : Chars) → PartAtMost (length xs) (exponent_digits xs)
unfolding exponent_digits
exponent_digits_le xs = elim (Bool-cases (next_is is_ascii_digit xs)) [
  | inl t ↦ rw t (span_le is_ascii_digit xs)
  | inr f ↦ rw f tt
]

signed_digits_le : (xs : Chars) → PartAtMost (length xs) (signed_digits xs)
unfolding signed_digits exponent_digits
signed_digits_le [] = tt
signed_digits_le (c ∷ rest) = elim (Bool-cases (c == b'+' || c == b'-')) [
  | inr f ↦ rw f (exponent_digits_le (c ∷ rest))
  | inl t ↦ elim (Bool-cases (next_is is_ascii_digit rest)) [
    | inl d ↦ rw t (rw d (omega (arith, span_le is_ascii_digit rest)))
    | inr none_there ↦ rw t (rw none_there tt)
  ]
]

exponent_le : (xs : Chars) → length (exponent xs).1 ≤ length xs
unfolding exponent
exponent_le [] = omega arith
exponent_le (c ∷ rest) = elim (Bool-cases (c == b'e' || c == b'E')) [
  | inr f ↦ rw f (omega arith)
  | inl t ↦ elim (Option-cases (signed_digits rest)) [
    | inl e ↦ rw t (rw e (omega arith))
    | inr ((d, after), e) ↦
        let le : length after ≤ length rest = rw e at (signed_digits_le rest) in
        rw t (rw e (omega arith))
  ]
]

is_comment_dash : (c : ℕ) (rest : Chars) → is_comment c rest ≡ true → not (c == b'\n') ≡ true
unfolding is_comment
is_comment_dash c rest h = ground arith

module _ (parse_f64 : Chars → Option ℕ) where
  number_step_le :
      (n : ℕ) (negative : Bool) (xs : Chars)
      → length (span is_ascii_digit xs).1 ≤ n
      → LeavesAtMost n (number_step parse_f64 negative xs)
  unfolding number_step
  number_step_le n negative xs h =
      let whole = span is_ascii_digit xs in
      let part = fraction whole.1 in
      let power = exponent part.1 in
      let text = sign negative ++ (whole.0 ++ (taken part.0 ++ taken power.0)) in
      let left : length power.1 ≤ n = omega (arith, fraction_le whole.1, exponent_le part.1) in
      LeavesAtMost-if n (is_taken part.0 || is_taken power.0)
        (float_token text (parse_f64 text) power.1)
        (int_token text (parse_i64 negative whole.0) power.1)
        (λ _. LeavesAtMost-float n text (parse_f64 text) power.1 left)
        (λ _. LeavesAtMost-int n text (parse_i64 negative whole.0) power.1 left)

  literal_step_le :
      (c : ℕ) (rest : Chars) → LeavesAtMost (length rest) (literal_step parse_f64 c rest)
  unfolding literal_step string_step word_step
  literal_step_le c rest =
      LeavesAtMost-if (length rest) (c == b'\'' || c == b'"') (string_step c rest) _
        (λ _.
          LeavesAtMost-string (length rest) (span (λ d. not (d == c)) rest).0
            (span (λ d. not (d == c)) rest).1 (span_le (λ d. not (d == c)) rest))
        (λ _.
          LeavesAtMost-if (length rest) (is_ascii_digit c) _ _
            (λ digit.
              number_step_le (length rest) false (c ∷ rest)
                (span_first is_ascii_digit c rest digit))
            (λ _.
              LeavesAtMost-if (length rest) (c == b'-' && next_is is_ascii_digit rest) _ _
                (λ _. number_step_le (length rest) true rest (span_le is_ascii_digit rest))
                (λ _.
                  LeavesAtMost-if (length rest) (is_ascii_alphabetic c || c == b'_') _ _
                    (λ letter. span_first is_word_char c rest (ground arith)) (λ _. tt))))

  LeavesAtMost-push_or :
      (n : ℕ) (t : Option Token) (after : Chars) (other : Step)
      → length after ≤ n
      → LeavesAtMost n other
      → LeavesAtMost n (push_or t after other)
  LeavesAtMost-push_or n none after other h k = k
  LeavesAtMost-push_or n (some t) after other h k = h

  step_le : (c : ℕ) (rest : Chars) → LeavesAtMost (length rest) (step parse_f64 c rest)
  unfolding step
  step_le c rest =
      LeavesAtMost-if (length rest) (is_whitespace c) (skip rest) _ (λ _. omega arith)
        (λ _.
          LeavesAtMost-if (length rest) (is_comment c rest) _ _
            (λ h. span_first (λ d. not (d == b'\n')) c rest (is_comment_dash c rest h))
            (λ _.
              LeavesAtMost-push_or (length rest) (two_char_token c rest) (tail rest) _
                (tail_le rest)
                (LeavesAtMost-push_or (length rest) (one_char_token c) rest _ (omega arith)
                  (literal_step_le c rest))))

  go_on_total :
      (n : ℕ) (s : Step) (next : Chars → Option (Result (List Token)))
      → LeavesAtMost n s
      → ((after : Chars) → length after ≤ n → (r : Result (List Token)) × (next after ≡ some r))
      → (r : Result (List Token)) × (go_on s next ≡ some r)
  go_on_total n (skip after) next h k = k after h
  go_on_total n (fail e) next h k = (err e, refl)
  go_on_total n (push t after) next h k =
      let rest = k after h in
      elim (Result-cases rest.0) [
        | inl (tokens, e) ↦ (ok (t ∷ tokens), rw rest.1 (rw e refl))
        | inr (x, e) ↦ (err x, rw rest.1 (rw e refl))
      ]

  tokenize_from_total :
      (fuel : ℕ) (input : Chars)
      → length input ≤ fuel
      → (r : Result (List Token)) × (tokenize_from parse_f64 fuel input ≡ some r)
  unfolding tokenize_from
  tokenize_from_total fuel [] h = (ok [], refl)
  tokenize_from_total zero (c ∷ rest) h = absurd (omega arith)
  tokenize_from_total (suc fuel) (c ∷ rest) h =
      go_on_total (length rest) (step parse_f64 c rest)
        (λ after. tokenize_from parse_f64 fuel after) (step_le c rest)
        (λ after le. tokenize_from_total fuel after (omega arith))

  -- The tokenizer ends on every input, with tokens or an error: as many rounds as the input has
  -- chars are enough.
  pub tokenize_total :
      (input : Chars) → (r : Result (List Token)) × (tokenize parse_f64 input ≡ some r)
  unfolding tokenize
  tokenize_total input = tokenize_from_total (length input) input (omega arith)
