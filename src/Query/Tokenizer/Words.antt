-- ===== src/Query/Tokenizer/Words.antt =====
-- The keywords of crates/query/src/tokenizer.rs in any case, and the numbers that digits write.
use dllb.Common.{
  ℕ, suc, ◌+◌, ◌-◌, ◌*◌, ◌^◌, List, [], ◌∷◌, ◌++◌, Bool, true, false, none, some, ◌≡◌, refl, arith,
  All, Member, ◌&&◌, ◌⊎◌, inl, inr, map, length, beq, beq_iff, ◌∙◌, Bool-cases, All-append,
}
use dllb.Query.Tokens.{
  Chars, Token, create, select, delete, relate, from, where_token, set, and, on, conflict, update,
  limit, outcome, graph, communities, components, count, is, not_token, true_token, false_token,
  none_token, is_ascii_digit, is_ascii_alphabetic, is_word_char, between,
}
use dllb.Query.Tokenizer.{keyword, keywords, to_upper, digits_value}
use dllb.Query.Tokenizer.Spelling.{
  IsDigit, IsWordChar, AnyCase, keyword_texts, keyword_tokens, IsFree, value,
}

abbrev all_lower : Chars → Bool
all_lower [] = true
all_lower (c ∷ text) = between b'a' b'z' c && all_lower text

-- a letter, the next of a keyword in some case
upper_letter :
    (k c : ℕ) → between b'a' b'z' k ≡ true → (c ≡ k) ⊎ (c + 32 ≡ k) → to_upper c ≡ to_upper k
upper_letter k c h same = ground arith

letter_upper :
    (k c : ℕ) → between b'a' b'z' k ≡ true → to_upper k ≡ to_upper c → (c ≡ k) ⊎ (c + 32 ≡ k)
letter_upper k c h same = ground arith

upper_word :
    (lower word : Chars)
    → all_lower lower ≡ true
    → AnyCase lower word
    → map to_upper word ≡ map to_upper lower
upper_word [] [] h same = refl
upper_word [] (c ∷ word) h same = absurd same
upper_word (k ∷ lower) [] h same = absurd same
upper_word (k ∷ lower) (c ∷ word) h same =
    let first : to_upper c ≡ to_upper k = upper_letter k c (ground arith) same.0 in
    let rest = upper_word lower word (ground arith) same.1 in rw (first, rest) refl

AnyCase-upper :
    (lower word : Chars)
    → all_lower lower ≡ true
    → beq (map to_upper lower) (map to_upper word) ≡ true
    → AnyCase lower word
AnyCase-upper [] [] h same = tt
AnyCase-upper [] (c ∷ word) h same = absurd (ground arith)
AnyCase-upper (k ∷ lower) [] h same = absurd (ground arith)
AnyCase-upper (k ∷ lower) (c ∷ word) h same = (
  letter_upper k c (ground arith) (ground arith),
  AnyCase-upper lower word (ground arith) (ground arith),
)

-- lower case words against a table of keywords
abbrev matches : List Chars → List (Chars × Token) → Bool
matches [] [] = true
matches [] (_ ∷ _) = false
matches (_ ∷ _) [] = false
matches (lower ∷ words) ((k, t) ∷ table) =
    beq k (map to_upper lower) && (all_lower lower && matches words table)

keyword-none :
    (words : List Chars) (table : List (Chars × Token)) (word : Chars)
    → matches words table ≡ true
    → All (λ lower. ¬ AnyCase lower word) words
    → keyword table (map to_upper word) ≡ none
keyword-none [] [] word h free = refl
keyword-none [] (_ ∷ _) word h free = absurd cc
keyword-none (_ ∷ _) [] word h free = absurd cc
keyword-none (lower ∷ words) ((k, t) ∷ table) word h free =
    elim (Bool-cases (beq k (map to_upper word))) [
      | inr f ↦ rw f (keyword-none words table word (ground arith) free.1)
      | inl e ↦
          let same : k ≡ map to_upper lower = (beq_iff k (map to_upper lower)).0 (ground arith) in
          absurd (free.0 (AnyCase-upper lower word (ground arith) (rw same at e)))
    ]

abbrev texts_of : List Token → List Chars
texts_of [] = []
texts_of (t ∷ tokens) = keyword_texts t ++ texts_of tokens

All-texts_of :
    (word : Chars) (tokens : List Token)
    → IsFree word tokens
    → All (λ lower. ¬ AnyCase lower word) (texts_of tokens)
All-texts_of word [] h = tt
All-texts_of word (t ∷ tokens) h =
    All-append (λ lower. ¬ AnyCase lower word) (keyword_texts t) (texts_of tokens) h.0
      (All-texts_of word tokens h.1)

pub keyword-IsFree :
    (word : Chars) → IsFree word keyword_tokens → keyword keywords (map to_upper word) ≡ none
unfolding keyword_texts
keyword-IsFree word free =
    keyword-none (texts_of keyword_tokens) keywords word refl
      (All-texts_of word keyword_tokens free)

-- what the table makes of the keywords of a token
abbrev Known : Token → Chars → Type 0
Known t lower =
    (keyword keywords (map to_upper lower) ≡ some t)
    × (all_lower lower ≡ true)
    × (beq lower [] ≡ false)

known :
    (t : Token) (lower : Chars)
    → keyword keywords (map to_upper lower) ≡ some t
    → all_lower lower ≡ true
    → beq lower [] ≡ false
    → (word : Chars) → word ≡ lower
    → Known t word
known t lower a b c word e = rw e (a, b, c)

keyword-texts : (t : Token) (lower : Chars) → Member lower (keyword_texts t) → Known t lower
unfolding keyword_texts
keyword-texts create word (inl e) =
    known create (b'c' ∷ b'r' ∷ b'e' ∷ b'a' ∷ b't' ∷ b'e' ∷ []) refl refl refl word e
keyword-texts create word (inr m) = absurd m
keyword-texts select word (inl e) =
    known select (b's' ∷ b'e' ∷ b'l' ∷ b'e' ∷ b'c' ∷ b't' ∷ []) refl refl refl word e
keyword-texts select word (inr m) = absurd m
keyword-texts delete word (inl e) =
    known delete (b'd' ∷ b'e' ∷ b'l' ∷ b'e' ∷ b't' ∷ b'e' ∷ []) refl refl refl word e
keyword-texts delete word (inr m) = absurd m
keyword-texts relate word (inl e) =
    known relate (b'r' ∷ b'e' ∷ b'l' ∷ b'a' ∷ b't' ∷ b'e' ∷ []) refl refl refl word e
keyword-texts relate word (inr m) = absurd m
keyword-texts from word (inl e) = known from (b'f' ∷ b'r' ∷ b'o' ∷ b'm' ∷ []) refl refl refl word e
keyword-texts from word (inr m) = absurd m
keyword-texts where_token word (inl e) =
    known where_token (b'w' ∷ b'h' ∷ b'e' ∷ b'r' ∷ b'e' ∷ []) refl refl refl word e
keyword-texts where_token word (inr m) = absurd m
keyword-texts set word (inl e) = known set (b's' ∷ b'e' ∷ b't' ∷ []) refl refl refl word e
keyword-texts set word (inr m) = absurd m
keyword-texts and word (inl e) = known and (b'a' ∷ b'n' ∷ b'd' ∷ []) refl refl refl word e
keyword-texts and word (inr m) = absurd m
keyword-texts on word (inl e) = known on (b'o' ∷ b'n' ∷ []) refl refl refl word e
keyword-texts on word (inr m) = absurd m
keyword-texts conflict word (inl e) =
    known conflict (b'c' ∷ b'o' ∷ b'n' ∷ b'f' ∷ b'l' ∷ b'i' ∷ b'c' ∷ b't' ∷ []) refl refl refl word
      e
keyword-texts conflict word (inr m) = absurd m
keyword-texts update word (inl e) =
    known update (b'u' ∷ b'p' ∷ b'd' ∷ b'a' ∷ b't' ∷ b'e' ∷ []) refl refl refl word e
keyword-texts update word (inr m) = absurd m
keyword-texts limit word (inl e) =
    known limit (b'l' ∷ b'i' ∷ b'm' ∷ b'i' ∷ b't' ∷ []) refl refl refl word e
keyword-texts limit word (inr m) = absurd m
keyword-texts outcome word (inl e) =
    known outcome (b'o' ∷ b'u' ∷ b't' ∷ b'c' ∷ b'o' ∷ b'm' ∷ b'e' ∷ []) refl refl refl word e
keyword-texts outcome word (inr m) = absurd m
keyword-texts graph word (inl e) =
    known graph (b'g' ∷ b'r' ∷ b'a' ∷ b'p' ∷ b'h' ∷ []) refl refl refl word e
keyword-texts graph word (inr m) = absurd m
keyword-texts communities word (inl e) =
    known communities
      (b'c' ∷ b'o' ∷ b'm' ∷ b'm' ∷ b'u' ∷ b'n' ∷ b'i' ∷ b't' ∷ b'i' ∷ b'e' ∷ b's' ∷ []) refl refl
      refl word e
keyword-texts communities word (inr m) = absurd m
keyword-texts components word (inl e) =
    known components (b'c' ∷ b'o' ∷ b'm' ∷ b'p' ∷ b'o' ∷ b'n' ∷ b'e' ∷ b'n' ∷ b't' ∷ b's' ∷ []) refl
      refl refl word e
keyword-texts components word (inr m) = absurd m
keyword-texts count word (inl e) =
    known count (b'c' ∷ b'o' ∷ b'u' ∷ b'n' ∷ b't' ∷ []) refl refl refl word e
keyword-texts count word (inr m) = absurd m
keyword-texts is word (inl e) = known is (b'i' ∷ b's' ∷ []) refl refl refl word e
keyword-texts is word (inr m) = absurd m
keyword-texts not_token word (inl e) =
    known not_token (b'n' ∷ b'o' ∷ b't' ∷ []) refl refl refl word e
keyword-texts not_token word (inr m) = absurd m
keyword-texts true_token word (inl e) =
    known true_token (b't' ∷ b'r' ∷ b'u' ∷ b'e' ∷ []) refl refl refl word e
keyword-texts true_token word (inr m) = absurd m
keyword-texts false_token word (inl e) =
    known false_token (b'f' ∷ b'a' ∷ b'l' ∷ b's' ∷ b'e' ∷ []) refl refl refl word e
keyword-texts false_token word (inr m) = absurd m
keyword-texts none_token word (inl e) =
    known none_token (b'n' ∷ b'o' ∷ b'n' ∷ b'e' ∷ []) refl refl refl word e
keyword-texts none_token word (inr (inl e)) =
    known none_token (b'n' ∷ b'u' ∷ b'l' ∷ b'l' ∷ []) refl refl refl word e
keyword-texts none_token word (inr (inr m)) = absurd m
keyword-texts _ word m = absurd m

pub keyword-AnyCase :
    (t : Token) (lower word : Chars)
    → Member lower (keyword_texts t)
    → AnyCase lower word
    → (keyword keywords (map to_upper word) ≡ some t)
      × (all_lower lower ≡ true)
      × (beq lower [] ≡ false)
keyword-AnyCase t lower word m same =
    let known = keyword-texts t lower m in
    (rw (upper_word lower word known.1 same) known.0, known.1, known.2)

-- the chars of a keyword
pub AnyCase-letters :
    (lower word : Chars)
    → all_lower lower ≡ true
    → AnyCase lower word
    → All (λ c. is_ascii_alphabetic c ≡ true) word
AnyCase-letters [] [] h same = tt
AnyCase-letters [] (c ∷ word) h same = absurd same
AnyCase-letters (k ∷ lower) [] h same = absurd same
AnyCase-letters (k ∷ lower) (c ∷ word) h same =
    (ground arith, AnyCase-letters lower word (ground arith) same.1)

pub All-letters :
    (word : Chars)
    → All (λ c. is_ascii_alphabetic c ≡ true) word
    → All (λ c. is_word_char c ≡ true) word
All-letters [] h = tt
All-letters (c ∷ word) h = (ground arith, All-letters word h.1)

pub All-IsWordChar : (word : Chars) → All IsWordChar word → All (λ c. is_word_char c ≡ true) word
All-IsWordChar [] h = tt
All-IsWordChar (c ∷ word) h = (ground arith, All-IsWordChar word h.1)

pub All-IsDigit : (digits : Chars) → All IsDigit digits → All (λ c. is_ascii_digit c ≡ true) digits
All-IsDigit [] h = tt
All-IsDigit (c ∷ digits) h = (ground arith, All-IsDigit digits h.1)

shifted : (a d p v : ℕ) → (a * 10 + d) * p + v ≡ a * (10 * p) + (d * p + v)
shifted a d p v = grind arith

pow_suc : (n : ℕ) → 10 ^ suc n ≡ 10 * 10 ^ n
pow_suc n = omega arith

digits_value-acc :
    (acc : ℕ) (digits : Chars) → digits_value acc digits ≡ acc * 10 ^ length digits + value digits
digits_value-acc acc [] = omega arith
digits_value-acc acc (d ∷ digits) =
    digits_value-acc (acc * 10 + (d - b'0')) digits
    ∙ rw (pow_suc (length digits)) (shifted acc (d - b'0') (10 ^ length digits) (value digits))

pub digits_value-value : (digits : Chars) → digits_value 0 digits ≡ value digits
digits_value-value digits = digits_value-acc 0 digits ∙ omega arith
