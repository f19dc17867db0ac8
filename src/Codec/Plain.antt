-- ===== src/Codec/Plain.antt =====
-- crates/splayed-codec/src/plain.rs.
use stkoe_data.Base.{ℕ, ◌*◌, ◌≡◌, List, length, ok, guard, ◌>>=◌, ◌>>◌, ◌==◌, arith}
use stkoe_data.Codec.Errors.{Codec, row_count_mismatch}

unfoldable pub encode : List ℕ → Codec (List ℕ)
encode values = ok values

unfoldable pub decode : List ℕ → ℕ → ℕ → Codec (List ℕ)
decode payload rows size = do
  guard (length payload == rows * size) (row_count_mismatch (rows * size) (length payload))
  ok payload

pub decode-encode_plain :
    (values : List ℕ) (rows size : ℕ)
    → length values ≡ rows * size
    → (encode values >>= λ p. decode p rows size) ≡ ok values
unfolding encode decode
decode-encode_plain values rows size h = ground arith
