-- ===== src/Examples/Codec.antt =====
-- A codec for some maps: the empty one, and those of one string under a name of one byte.
-- Others it refuses.
use dllb.Common.{[], ◌∷◌, Bytes, ◌≡◌, ◌≢◌, arith}
use dllb.Common.Map.{Map}
use dllb.Core.{Value, Attempt, done, failed}
use dllb.Document.Serde.{FieldsCodec, IsCodec}

abbrev pub to_small : Map Value → Attempt Bytes
to_small [] = done (0x80 ∷ [])
to_small ((k ∷ [], Value.string s) ∷ []) = done (0x81 ∷ k ∷ s)
to_small _ = failed []

abbrev pub from_small : Bytes → Attempt (Map Value)
from_small [] = failed []
from_small (_ ∷ []) = done []
from_small (_ ∷ k ∷ s) = done ((k ∷ [], Value.string s) ∷ [])

abbrev pub small_codec : FieldsCodec
small_codec = record { to_vec = to_small; from_slice = from_small }

from_small-to_small :
    (fields : Map Value) (bytes : Bytes)
    → to_small fields ≡ done bytes
    → from_small bytes ≡ done fields
from_small-to_small [] bytes h = ground arith
from_small-to_small ((k ∷ [], Value.string s) ∷ []) bytes h = ground arith
from_small-to_small _ bytes h = absurd (ground arith)

to_small-ne : (fields : Map Value) → to_small fields ≢ done []
to_small-ne [] h = absurd (ground arith)
to_small-ne ((k ∷ [], Value.string s) ∷ []) h = absurd (ground arith)
to_small-ne _ h = absurd (ground arith)

pub small_codec-IsCodec : IsCodec small_codec
small_codec-IsCodec = record { from_slice-to_vec = from_small-to_small; to_vec-ne = to_small-ne }
