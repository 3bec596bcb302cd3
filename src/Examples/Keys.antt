-- ===== src/Examples/Keys.antt =====
-- The key encoding at concrete keys.
use dllb.Common.{ℕ, [], ◌∷◌, ◌++◌, Bytes, true, ◌&&◌, ◌≡◌, refl, ◌↔◌, All, starts_with, arith}
use dllb.Common.Order.{lex_le}
use dllb.Core.{ok}
use dllb.Storage.Key.{table_prefix, document_key, tag_document}
use dllb.Storage.Key.Parse.{KeyParts, parse_key, IsScope, unparse, parse_key_iff}
use dllb.Storage.Key.PrefixEnd.{prefix_end, before_end, starts_with-range, prefix_end-nil}
use dllb.Storage.Key.Region.{starts_with-table_prefix, outgoing, encode-injective}

abbrev ns : Bytes
ns = b'n' ∷ b's' ∷ []

abbrev db : Bytes
db = b'd' ∷ b'b' ∷ []

abbrev user : Bytes
user = b'u' ∷ []

abbrev alice : Bytes
alice = b'a' ∷ b'l' ∷ []

abbrev alice_parts : KeyParts
alice_parts = record {
  namespace = ns;
  database = db;
  table = user;
  tag = tag_document;
  remainder = alice;
}

document_key_test : parse_key (document_key ns db user alice) ≡ ok alice_parts
unfolding parse_key document_key
document_key_test = refl

-- prefix_end(b"ab\xff") is b"ac"
prefix_end_test : prefix_end (b'a' ∷ b'b' ∷ 0xff ∷ []) ≡ b'a' ∷ b'c' ∷ []
unfolding prefix_end
prefix_end_test = refl

parse_key_iff_example :
    (parse_key (document_key ns db user alice) ≡ ok alice_parts)
    ↔ (IsScope ns db user × (document_key ns db user alice ≡ unparse alice_parts))
parse_key_iff_example = parse_key_iff (document_key ns db user alice) alice_parts

starts_with-range_example : starts_with (b'a' ∷ 0xff ∷ 7 ∷ []) (b'a' ∷ 0xff ∷ []) ≡ (
    lex_le (b'a' ∷ 0xff ∷ []) (b'a' ∷ 0xff ∷ 7 ∷ [])
    && before_end (b'a' ∷ 0xff ∷ 7 ∷ []) (prefix_end (b'a' ∷ 0xff ∷ [])))
starts_with-range_example =
    starts_with-range (b'a' ∷ 0xff ∷ []) (b'a' ∷ 0xff ∷ 7 ∷ []) (omega arith) (omega arith)

prefix_end-nil_example :
    (prefix_end (0xff ∷ 0xff ∷ []) ≡ []) ↔ All {A = ℕ} (λ b. b ≡ 255) (0xff ∷ 0xff ∷ [])
prefix_end-nil_example = prefix_end-nil (0xff ∷ 0xff ∷ []) (omega arith)

starts_with-table_prefix_example :
    (starts_with
        (table_prefix ns db user tag_document ++ alice)
        (table_prefix ns db user tag_document)
      ≡ true)
    ↔ ((ns ≡ ns) × (db ≡ db) × (user ≡ user) × (tag_document ≡ tag_document))
starts_with-table_prefix_example =
    starts_with-table_prefix alice_parts alice_parts (refl, refl, refl) (refl, refl, refl)

encode-injective_example :
    (ns ≡ ns) × (db ≡ db) × (user ≡ user) × (outgoing alice user alice ≡ outgoing alice user alice)
encode-injective_example =
    encode-injective ns db user ns db user (outgoing alice user alice) (outgoing alice user alice)
      (refl, refl, refl) (refl, refl, refl) (refl, refl) (refl, refl) refl
