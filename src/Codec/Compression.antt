-- ===== src/Codec/Compression.antt =====
-- crates/splayed-codec/src/compression.rs. The compressors are the crates zstd and lz4_flex: their
-- functions are the fields of `Backends`.
use Prim.Native.String.{String}
use stkoe_data.Base.{
  ℕ, ◌^◌, ◌<◌, List, length, Option, Result, ok, err, panic, ◌≤◌, ◌≡◌, ap, Option-cases, inl, inr,
  arith,
}
use stkoe_data.Format.Compression.{Compression, zstd, lz4}
use stkoe_data.Codec.Errors.{Codec, io}

-- `zstd_frame_content_size` is `none` where the source does not find a size in the frame.
pub record Backends : Type 0 where
  pub zstd_compress : List ℕ → ℕ → Result String (List ℕ)
  pub zstd_frame_content_size : List ℕ → Option ℕ
  pub zstd_decompress : List ℕ → ℕ → Result String (List ℕ)
  pub zstd_decode_all : List ℕ → Result String (List ℕ)
  pub lz4_compress_prepend_size : List ℕ → List ℕ
  pub lz4_decompress_size_prepended : List ℕ → Result String (List ℕ)

abbrev pub default_zstd_level : ℕ
default_zstd_level = 1

-- `.map_err(|e| CodecError::Io(e.to_string()))`
abbrev map_err : Result String (List ℕ) → Codec (List ℕ)
map_err (ok data') = ok data'
map_err (err e) = err (io e)
map_err panic = panic

-- What the documentation of the two crates says of them. lz4_flex puts the size of its input in
-- front of its output, in four bytes.
pub record IsLossless (b : Backends) : Type 0 where
  pub content_size :
      (input payload : List ℕ) (level size : ℕ)
      → b.zstd_compress input level ≡ ok payload
      → b.zstd_frame_content_size payload ≡ Option.some size
      → length input ≤ size
  pub decompress_lem :
      (input payload : List ℕ) (level capacity : ℕ)
      → b.zstd_compress input level ≡ ok payload
      → length input ≤ capacity
      → b.zstd_decompress payload capacity ≡ ok input
  pub decode_all_lem :
      (input payload : List ℕ) (level : ℕ)
      → b.zstd_compress input level ≡ ok payload
      → b.zstd_decode_all payload ≡ ok input
  pub lz4_lem :
      (input : List ℕ)
      → length input < 2 ^ 32
      → b.lz4_decompress_size_prepended (b.lz4_compress_prepend_size input) ≡ ok input

module _ (b : Backends) where
  unfoldable pub compress : Compression → List ℕ → Codec (List ℕ)
  compress Compression.none input = ok input
  compress zstd input = map_err (b.zstd_compress input default_zstd_level)
  compress lz4 input = ok (b.lz4_compress_prepend_size input)

  unfoldable pub decompress : Compression → List ℕ → Codec (List ℕ)
  decompress Compression.none payload = ok payload
  decompress zstd payload = elim (b.zstd_frame_content_size payload) [
    | Option.some size ↦ map_err (b.zstd_decompress payload size)
    | Option.none ↦ map_err (b.zstd_decode_all payload)
  ]
  decompress lz4 payload = map_err (b.lz4_decompress_size_prepended payload)

map_err-eq-ok : (r : Result String (List ℕ)) (p : List ℕ) → map_err r ≡ ok p → r ≡ ok p
map_err-eq-ok (ok d) p e = cc
map_err-eq-ok (err x) p e = cc
map_err-eq-ok panic p e = cc

-- The size of an input of lz4_flex fits the four bytes in front of its output.
abbrev pub HasSize : Compression → List ℕ → Type 0
HasSize Compression.none input = Unit {0}
HasSize zstd input = Unit {0}
HasSize lz4 input = length input < 2 ^ 32

pub HasSize-of_lt :
    (compression : Compression) (input : List ℕ) → length input < 2 ^ 32 → HasSize compression input
HasSize-of_lt Compression.none input h = tt
HasSize-of_lt zstd input h = tt
HasSize-of_lt lz4 input h = h

-- What was compressed is decompressed, on each of the paths of `decompress`.
-- The conditions: the compressors are lossless, as their documentation says, and the size of the
-- input fits lz4_flex.
pub decompress-compress :
    (b : Backends) (compression : Compression) (input payload : List ℕ)
    → IsLossless b
    → HasSize compression input
    → compress b compression input ≡ ok payload
    → decompress b compression payload ≡ ok input
unfolding compress decompress
decompress-compress b Compression.none input payload l h e = cc
decompress-compress b zstd input payload l h e =
    let e' : b.zstd_compress input default_zstd_level ≡ ok payload = map_err-eq-ok _ _ e in
    elim (Option-cases (b.zstd_frame_content_size payload)) [
      | inl q ↦
          rw (q, decompress) (ap map_err (l.decode_all_lem input payload default_zstd_level e'))
      | inr (size, q) ↦
          rw (q, decompress)
            (ap map_err (
              l.decompress_lem input payload default_zstd_level size e'
                (l.content_size input payload default_zstd_level size e' q)))
    ]
decompress-compress b lz4 input payload l h e = ground (arith, l.lz4_lem input h)
