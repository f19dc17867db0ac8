-- ===== src/Core/Lookup.antt =====
-- The searches of crates/splayed-core/src/meta_file.rs in an open META file, the bytes of which
-- are `mmap`. A slice out of bounds is `panic`.
pub mod Search
use stkoe_data.Base.{
  ℕ, zero, suc, ◌+◌, ◌-◌, ◌*◌, ◌/◌, ◌%◌, ◌^◌, ◌≡◌, List, [], ◌∷◌, length, take, drop, from_le,
}
use stkoe_data.Base.{
  Bool, true, false, Option, none, some, Result, ok, err, panic, guard, assert, ◌>>=◌, ◌>>◌, ◌==◌,
  leb, ltb, if◌then◌else◌,
}
use stkoe_data.Format.Errors.{FormatError}
use stkoe_data.Codec.Errors.{CodecError}
use stkoe_data.Format.Layout.{header_size}
use stkoe_data.Format.TimeType
use stkoe_data.Format.TimeType.{TimeType}
use stkoe_data.Format.MetaHeader.{MetaHeader, time_type_size}
use stkoe_data.Format.MetaHeader
use stkoe_data.Format.SymIndexRecord.{SymIndexRecord}
use stkoe_data.Format.SymIndexRecord

-- crates/splayed-core/src/error.rs, without the texts and paths.
pub data CoreError : Type 0 where
  format : FormatError → CoreError
  codec : CodecError → CoreError
  io invalid invalid_state not_found already_exists non_contiguous_time : CoreError

abbrev pub Core : Type 0 → Type 0
Core = Result CoreError

pub record MetaHandle : Type 0 where
  pub mmap : List ℕ
  pub header : MetaHeader

abbrev pub map_err : {A : Type 0} → Result FormatError A → Core A
map_err (ok a) = ok a
map_err (err e) = err (format e)
map_err panic = panic

pub map_err-eq-ok : {A : Type 0} (r : Result FormatError A) (a : A) → map_err r ≡ ok a → r ≡ ok a
map_err-eq-ok (ok x) a e = cc
map_err-eq-ok (err x) a e = cc
map_err-eq-ok panic a e = cc

-- `MetaHandle::open` on the bytes of the file.
unfoldable pub open_bytes : List ℕ → Core MetaHandle
open_bytes mmap = do
  header ← map_err (MetaHeader.from_bytes mmap)
  guard (length mmap == header.file_size) invalid_state
  ok (record { mmap = mmap; header = header })

-- `&bytes[from..to]`
abbrev pub bytes_between : List ℕ → ℕ → ℕ → Core (List ℕ)
bytes_between bytes from to = do
  assert (leb from to)
  assert (leb to (length bytes))
  ok (take (to - from) (drop from bytes))

unfoldable pub axis_bytes : MetaHandle → Core (List ℕ)
axis_bytes h =
    bytes_between h.mmap header_size (header_size + h.header.time_count * time_type_size h.header)

unfoldable pub sym_index_bytes : MetaHandle → Core (List ℕ)
sym_index_bytes h =
    let start = h.header.sym_index_offset in
    bytes_between h.mmap start (start + h.header.sym_count * 12)

-- Both widths are read as an unsigned number.
unfoldable pub time_at : MetaHandle → ℕ → Core ℕ
unfolding axis_bytes
time_at h index = do
  guard (ltb index h.header.time_count) invalid
  let ts = time_type_size h.header
  axis ← axis_bytes h
  bytes ← bytes_between axis (index * ts) (index * ts + ts)
  time_type ← map_err (TimeType.from_id h.header.time_type)
  assert (length bytes == TimeType.size_of time_type)
  ok (from_le bytes)

unfoldable pub sym_record : MetaHandle → ℕ → Core SymIndexRecord
unfolding sym_index_bytes
sym_record h sym_id = do
  guard (ltb sym_id h.header.sym_count) invalid
  bytes ← sym_index_bytes h
  rest ← bytes_between bytes (sym_id * 12) (length bytes)
  map_err (SymIndexRecord.from_bytes rest)

-- `self.time_at(mid as u32).unwrap_or(u64::MAX)`
abbrev time_or_max : Core ℕ → Core ℕ
time_or_max (ok t) = ok t
time_or_max (err e) = ok (2 ^ 64 - 1)
time_or_max panic = panic

-- The loop of `axis_lower_bound`: a round halves the range, so `hi - lo` rounds are enough.
unfoldable pub lower_bound_loop : ℕ → MetaHandle → ℕ → ℕ → ℕ → Core ℕ
unfolding time_at
lower_bound_loop zero h v lo hi = ok lo
lower_bound_loop (suc fuel) h v lo hi =
    let mid = (lo + hi) / 2 in
    if ltb lo hi
    then (do
      t ← time_or_max (time_at h (mid % 2 ^ 32))
      lower_bound_loop fuel h v (if ltb t v then mid + 1 else lo) (if ltb t v then hi else mid))
    else ok lo

unfoldable pub axis_lower_bound : MetaHandle → ℕ → Core ℕ
unfolding lower_bound_loop
axis_lower_bound h v = lower_bound_loop h.header.time_count h v 0 h.header.time_count

unfoldable pub index_of_loop : ℕ → MetaHandle → ℕ → ℕ → ℕ → Core (Option ℕ)
unfolding time_at
index_of_loop zero h value lo hi = ok none
index_of_loop (suc fuel) h value lo hi =
    let mid = (lo + hi) / 2 in
    if ltb lo hi
    then (do
      t ← time_or_max (time_at h (mid % 2 ^ 32))
      (if t == value
          then ok (some (mid % 2 ^ 32))
          else index_of_loop fuel h value (if ltb t value then mid + 1 else lo)
              (if ltb t value then hi else mid)))
    else ok none

-- Time value to index on the time axis.
unfoldable pub axis_index_of : MetaHandle → ℕ → Core (Option ℕ)
unfolding index_of_loop
axis_index_of h value = index_of_loop h.header.time_count h value 0 h.header.time_count

unfoldable pub locate_loop : ℕ → List ℕ → ℕ → ℕ → ℕ → Core ℕ
locate_loop zero bytes row lo hi = ok lo
locate_loop (suc fuel) bytes row lo hi =
    let mid = (lo + hi) / 2 in
    if ltb (lo + 1) hi
    then (do
      rest ← bytes_between bytes (mid * 12) (length bytes)
      rec ← map_err (SymIndexRecord.from_bytes rest)
      let before = leb rec.row_start (row % 2 ^ 32)
      locate_loop fuel bytes row (if before then mid else lo) (if before then hi else mid))
    else ok lo

-- Global row to symbol and index on the time axis.
unfoldable pub locate_row : MetaHandle → ℕ → Core (ℕ × ℕ)
unfolding locate_loop sym_index_bytes
locate_row h row = do
  guard (ltb row h.header.row_count) invalid
  bytes ← sym_index_bytes h
  lo ← locate_loop h.header.sym_count bytes row 0 h.header.sym_count
  rest ← bytes_between bytes (lo * 12) (length bytes)
  rec ← map_err (SymIndexRecord.from_bytes rest)
  let time_index = rec.time_start + (row + 2 ^ 64 - rec.row_start) % 2 ^ 64
  ok (lo % 2 ^ 32, time_index % 2 ^ 32)
