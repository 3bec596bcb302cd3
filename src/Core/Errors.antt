-- ===== src/Core/Errors.antt =====
-- crates/core/src/error.rs. The texts that the program formats are constructors of `Message`, one
-- for each template, with what is put into it. `external` is the text of an error that another
-- library returned.
use dllb.Common.{ℕ, List, Bytes, Option, none, some, ◌≡◌, refl, ◌↔◌, arith, ◌⊎◌, inl, inr}
use dllb.Core.Values.{Value}
use dllb.Core.Schema.{FieldType}

pub data Message : Type 0 where
  external : Bytes → Message
  invalid_utf8 : Message
  missing_namespace missing_database missing_table missing_tag empty_after_table : Message
  nul_in_segment invalid_record_id record_exists record_not_found : Bytes → Message
  missing_edge_type missing_other_vertex empty_dir_and_type : Message
  edge_not_found : Bytes → Bytes → Bytes → Message
  missing_required_field unknown_field : Bytes → Message
  field_type_expected : Bytes → FieldType → Value → Message
  type_not_indexable : Value → Message
  index_has_no_fields : Message
  unique_violated : Bytes → Bytes → Message
  unterminated_string : Message
  invalid_float invalid_integer : List ℕ → Message
  unexpected_character : ℕ → Message

pub data Error : Type 0 where
  storage serialization not_found schema conflict query index other : Message → Error
  dimension_mismatch : ℕ → ℕ → Error

pub data Result {ℓ} (T : Type ℓ) : Type ℓ where
  ok : T → Result T
  err : Error → Result T

-- the `?` operator
infixl 5 ◌>>=◌
abbrev pub ◌>>=◌ {ℓ κ} : {T : Type ℓ} {U : Type κ} → Result T → (T → Result U) → Result U
ok value >>= next = next value
err reason >>= next = err reason

infixl 5 ◌>>◌
abbrev pub ◌>>◌ {ℓ} : {U : Type ℓ} → Result (Unit {0}) → Result U → Result U
first >> second = first >>= λ _. second

pub >>-iff : (m k : Result (Unit {0})) → ((m >> k) ≡ ok tt) ↔ ((m ≡ ok tt) × (k ≡ ok tt))
>>-iff (ok tt) k = (λ h. (refl, h), λ h. h.1)
>>-iff (err e) k = (λ h. absurd (ground arith), λ h. absurd (ground arith))

-- `ok_or`
abbrev pub ok_or {ℓ} : {A : Type ℓ} → Option A → Error → Result A
ok_or none e = err e
ok_or (some a) e = ok a

pub Result-cases {ℓ} :
    {A : Type ℓ} (r : Result A) → ((a : A) × (r ≡ ok a)) ⊎ ((e : Error) × (r ≡ err e))
Result-cases (ok a) = inl (a, refl)
Result-cases (err e) = inr (e, refl)

-- A call of a library that the repository does not hold: its value, or the text of its error.
pub data Attempt (A : Type 0) : Type 0 where
  done : A → Attempt A
  failed : Bytes → Attempt A

pub Attempt-cases :
    {A : Type 0} (a : Attempt A) → ((x : A) × (a ≡ done x)) ⊎ ((text : Bytes) × (a ≡ failed text))
Attempt-cases (done x) = inl (x, refl)
Attempt-cases (failed text) = inr (text, refl)

-- `map_err(|e| Error::Serialization(e.to_string()))`
abbrev pub or_serialization : {A : Type 0} → Attempt A → Result A
or_serialization (done a) = ok a
or_serialization (failed text) = err (serialization (external text))
