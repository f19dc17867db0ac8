-- ===== src/Lib.antt =====
-- A model of Splayed, a columnar store for panels of time series: its binary format, its codecs and
-- its core algorithms, with the theorems that make them correct.
--
-- A dataset is a directory with one META file and one FIELD file a column. META lists the symbols,
-- the distinct times and, for each symbol, which range of global rows holds its times; a FIELD file
-- holds the values of one column over the global rows, plain or cut into chunks. The crates build on
-- each other: splayed-format has the data model, splayed-codec turns the values of a chunk into bytes
-- and back, splayed-core reads and writes the files and turns a query into row ranges.
--
-- Base: lists, numbers, bits and bytes that the parts share. A byte is a number below 256, a buffer
-- a list of them, a w-bit word a number whose wrap-around is written out (`% 2 ^ w`), an i64 its bit
-- pattern. `Result E A` has a third case `panic` for a Rust panic. The build is a release build;
-- only Format/Bitmap writes its `debug_assert!`s out, which are its bounds.
--
-- Format (crates/splayed-format/src):
--   Format/Layout (lib.rs), Format/DataType, TimeType, Encoding, Compression (types.rs),
--   Format/Errors (error.rs).
--   Format/FieldHeader (field.rs), Format/MetaHeader and SymIndexRecord (meta.rs): the records, their
--   bytes (`to_bytes`, `from_bytes`) and their checks; `pod_read` is bytemuck's read of a `repr(C)`
--   struct on a little-endian machine. `new_header` is `MetaHeader::new`.
--   Format/Schema (schema.rs).
--   Format/Column (column.rs): `Column`, and in Column/Views segments and the views over them
--   (`fixed_segment`, `dict_segment`, `repeat_dict_segment` and `view_of_segments` are the functions
--   `new`); the UTF-8 test is a parameter. Column/Slices: slices of a view.
--   Format/Bitmap (bitmap.rs): `view` is `BitmapView::new`, `set_valid` is `Bitmap::set`; the loops on
--   bytes, behind the checks, are in Bitmap/Bytes.
--
-- Codec (crates/splayed-codec/src):
--   Codec/Plain, Delta, Rle, Bitpack: the encodings; a function of the source keeps its name, a loop
--   is a function of its own (`encode_loop`, `write_loop`) that is structural on the rows left or on
--   fuel. Fuel: `write_loop` and `read_loop` write or read a bit a round, so the width is enough;
--   Rle.encode_loop and count_run advance a row a round; Rle.decode_loop reads four bytes a round.
--   Rle.with_capacity is the bound of a vector; that the memory runs out is not modelled.
--   Codec/Encoding: the choice among them. Codec/Chunk: header, values and validity bits of a chunk.
--   Codec/Compression: zstd and lz4_flex are parameters, the record `Backends`; `IsLossless` states
--   what their documentation promises; lz4_flex writes the size of its input in four bytes.
--
-- Core (crates/splayed-core/src):
--   Core/Ranges and Core/Predicate (scan.rs): row ranges, and comparison operators.
--   Core/Lookup (meta_file.rs): an open META file is its bytes and its header; `open_bytes` is
--   `MetaHandle::open` on the mapped bytes. Its binary searches run on fuel, the number of times or
--   symbols, which a range that shrinks in every round does not exceed.
--   Core/IndexScan (meta_file.rs): `compile_predicate` and `scan_index_handle`. The UTF-8 test of the
--   standard library and the cast of a float are parameters; the loop of `sym_id_of` and the two
--   pointers run on as many rounds as there are symbols or ranges.
--   Core/Chunks (field_file.rs): `compute_chunk_boundaries`.
--   Core/Field (field_file.rs): FIELD files; a file is its bytes, and a handle is the record
--   `FieldHandle`. Field/Create: the writers of chunked files. Field/Open: `open_field_file` and
--   `decode_working`, the loops of which pass the header of a chunk in every round, so the length of
--   the file is enough fuel. Field/Stored: what was created is opened. Field/Write:
--   `write_field_handle` on decoded chunks and on a map. Field/Eval: predicates on all rows of a
--   range; the conversions to f64 and its comparisons are the record `Floats`; Eval/Exact has the
--   comparisons as relations of numbers. Field/Runs:
--   `next_true_run`; a round passes a word of the mask. Field/Scan: `FieldScanner`; a call of `next`
--   that runs out of rounds is `panic`.
--   Core/Scanner (meta_file.rs): `IndexScanner`.
--
-- Not modelled: files, memory maps, threads and the environment; data views; the plain writers of
-- FIELD files, their compression, decompression and casts in place; the writers of META files,
-- datasets and tables; the bindings to Arrow, Polars, Python and DuckDB; the
-- benchmarks.
pub mod Base
pub mod Format
pub mod Codec
pub mod Core
