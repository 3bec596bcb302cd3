-- ===== src/Document/Encoding/Words.antt =====
-- The order of the encoded numbers of crates/document/src/index.rs.
use Prim.Native.Nat.{bit_xor, bit_xor-bitwise, digits, differ}
use native.Mathlib.Nat.{pow-suc}
use dllb.Common.{
  ℕ, zero, suc, ◌+◌, ◌-◌, ◌*◌, ◌/◌, ◌%◌, ◌^◌, ◌≤◌, ◌<◌, [], ◌∷◌, ◌++◌, Bytes, not, ◌&&◌, ◌||◌, ltb,
  leb, if◌then◌else◌, ◌≡◌, refl, arith, length, length-append, sym, ◌∙◌,
}
use dllb.Common.Int.{ℤ, pos, negsuc, lt_int, IsI64}
use dllb.Common.Order.{lex_lt}
use dllb.Document.Encoding.{be_bytes, as_u64, encode_i64, encode_f64}

pub length-be_bytes : (k u : ℕ) → length (be_bytes k u) ≡ k
unfolding be_bytes
length-be_bytes zero u = refl
length-be_bytes (suc k) u =
    omega
      (arith, length-append (be_bytes k (u / 256)) ((u % 256) ∷ []), length-be_bytes k (u / 256))

lex_lt-snoc :
    (a b : Bytes) (x y : ℕ)
    → length a ≡ length b
    → lex_lt (a ++ x ∷ []) (b ++ y ∷ []) ≡ (lex_lt a b || (not (lex_lt b a) && ltb x y))
lex_lt-snoc [] [] x y h = ground arith
lex_lt-snoc [] (d ∷ b) x y h = absurd (omega arith)
lex_lt-snoc (c ∷ a) [] x y h = absurd (omega arith)
lex_lt-snoc (c ∷ a) (d ∷ b) x y h = ground (arith, lex_lt-snoc a b x y (omega arith))

-- Numbers of k bytes compare as their big-endian bytes.
pub lex_lt-be_bytes :
    (k u v : ℕ) → u < 256 ^ k → v < 256 ^ k → lex_lt (be_bytes k u) (be_bytes k v) ≡ ltb u v
unfolding be_bytes
lex_lt-be_bytes zero u v hu hv = ground arith
lex_lt-be_bytes (suc k) u v hu hv =
    let p = pow-suc 256 k in
    let bu : u / 256 < 256 ^ k = omega arith in
    let bv : v / 256 < 256 ^ k = omega arith in
    lex_lt-snoc (be_bytes k (u / 256)) (be_bytes k (v / 256)) (u % 256) (v % 256)
      (length-be_bytes k (u / 256) ∙ sym (length-be_bytes k (v / 256)))
    ∙ rw (lex_lt-be_bytes k (u / 256) (v / 256) bu bv)
        (rw (lex_lt-be_bytes k (v / 256) (u / 256) bv bu) (ground arith))

-- `bit_xor` one digit at a time.
abbrev xor_digits : ℕ → ℕ → ℕ → ℕ
xor_digits n a b = digits (λ b. b) differ n a b

xor_digits_fuel : (n m a b : ℕ) → a ≤ n → a ≤ m → xor_digits n a b ≡ xor_digits m a b
xor_digits_fuel zero zero a b p q = refl
xor_digits_fuel zero (suc m) zero b p q = refl
xor_digits_fuel zero (suc m) (suc a) b p q = absurd (omega arith)
xor_digits_fuel (suc n) zero zero b p q = refl
xor_digits_fuel (suc n) zero (suc a) b p q = absurd (omega arith)
xor_digits_fuel (suc n) (suc m) zero b p q = refl
xor_digits_fuel (suc n) (suc m) (suc a) b p q =
    omega (arith, xor_digits_fuel n m (suc a / 2) (b / 2) (omega arith) (omega arith))

zero-bit_xor : (b : ℕ) → bit_xor 0 b ≡ b
zero-bit_xor b = bit_xor-bitwise 0 b

bit_xor_step :
    (a b : ℕ) → bit_xor (suc a) b ≡ bit_xor (suc a / 2) (b / 2) * 2 + differ (suc a % 2) (b % 2)
bit_xor_step a b = omega (
  arith,
  bit_xor-bitwise (suc a) b,
  bit_xor-bitwise (suc a / 2) (b / 2),
  xor_digits_fuel a (suc a / 2) (suc a / 2) (b / 2) (omega arith) (omega arith),
)

differ-zero : (x : ℕ) → differ x 0 ≡ x
differ-zero zero = refl
differ-zero (suc x) = refl

-- The highest of k + 1 digits is flipped.
bit_xor_top :
    (k u : ℕ) → u < 2 * 2 ^ k → bit_xor u (2 ^ k) ≡ (if ltb u (2 ^ k) then u + 2 ^ k else u - 2 ^ k)
bit_xor_top k zero h = zero-bit_xor (2 ^ k) ∙ ground arith
bit_xor_top zero (suc zero) h = refl
bit_xor_top zero (suc (suc u)) h = absurd (omega arith)
bit_xor_top (suc k) (suc u) h =
    let p = pow-suc 2 k in
    let half : 2 ^ suc k / 2 ≡ 2 ^ k = omega arith in
    let even : 2 ^ suc k % 2 ≡ 0 = omega arith in
    bit_xor_step u (2 ^ suc k)
    ∙ rw half (rw even (rw differ-zero (ground (arith, bit_xor_top k (suc u / 2)))))

pub flip_sign :
    (u : ℕ) → u < 2 ^ 64 → bit_xor u (2 ^ 63) ≡ (if ltb u (2 ^ 63) then u + 2 ^ 63 else u - 2 ^ 63)
flip_sign u h = bit_xor_top 63 u (omega arith)

-- the number that the eight bytes of an `i64` or an `f64` hold
abbrev i64_rank : ℤ → ℕ
i64_rank (pos n) = n + 2 ^ 63
i64_rank (negsuc n) = 2 ^ 63 - 1 - n

i64_rank_lem : (n : ℤ) → IsI64 n → bit_xor (as_u64 n) (2 ^ 63) ≡ i64_rank n
i64_rank_lem (pos n) h = flip_sign (n % 2 ^ 64) (omega arith) ∙ ground arith
i64_rank_lem (negsuc n) h = flip_sign (2 ^ 64 - 1 - n % 2 ^ 64) (omega arith) ∙ ground arith

i64_rank-lt : (n : ℤ) → IsI64 n → i64_rank n < 256 ^ 8
i64_rank-lt (pos n) h = omega arith
i64_rank-lt (negsuc n) h = omega arith

ltb-i64_rank : (a b : ℤ) → IsI64 a → IsI64 b → ltb (i64_rank a) (i64_rank b) ≡ lt_int a b
ltb-i64_rank (pos a) (pos b) ha hb = ground arith
ltb-i64_rank (pos a) (negsuc b) ha hb = ground arith
ltb-i64_rank (negsuc a) (pos b) ha hb = ground arith
ltb-i64_rank (negsuc a) (negsuc b) ha hb = ground arith

-- Encoded 64-bit integers compare as the integers.
pub lex_lt-encode_i64 :
    (a b : ℤ) → IsI64 a → IsI64 b → lex_lt (encode_i64 a) (encode_i64 b) ≡ lt_int a b
unfolding encode_i64
lex_lt-encode_i64 a b ha hb = rw (i64_rank_lem a ha) (
    rw (i64_rank_lem b hb) (
      lex_lt-be_bytes 8 (i64_rank a) (i64_rank b) (i64_rank-lt a ha) (i64_rank-lt b hb)
      ∙ ltb-i64_rank a b ha hb))

abbrev f64_rank : ℕ → ℕ
f64_rank bits =
    if leb (2 ^ 63) bits
    then 2 ^ 64 - 1 - bits
    else if ltb bits (2 ^ 63)
    then bits + 2 ^ 63
    else bits - 2 ^ 63

f64_rank-lt : (bits : ℕ) → bits < 2 ^ 64 → f64_rank bits < 256 ^ 8
f64_rank-lt bits h = ground arith

-- A float with its sign as an integer: its order is the total order of IEEE 754, in which -0.0 is
-- below 0.0 and the infinities and NaNs lie outside of the numbers.
abbrev pub sign_magnitude : ℕ → ℤ
sign_magnitude bits = if ltb bits (2 ^ 63) then pos bits else negsuc (bits - 2 ^ 63)

-- Encoded floats of 64 bits compare by the sign and magnitude of their bits, the total order of
-- IEEE 754.
pub lex_lt-encode_f64 :
    (a b : ℕ)
    → a < 2 ^ 64
    → b < 2 ^ 64
    → lex_lt (encode_f64 a) (encode_f64 b) ≡ lt_int (sign_magnitude a) (sign_magnitude b)
unfolding encode_f64
lex_lt-encode_f64 a b ha hb = rw (flip_sign a ha) (
    rw (flip_sign b hb) (
      lex_lt-be_bytes 8 (f64_rank a) (f64_rank b) (f64_rank-lt a ha) (f64_rank-lt b hb)
      ∙ ground arith))
