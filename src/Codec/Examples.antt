-- ===== src/Codec/Examples.antt =====
-- The theorems of the encodings at concrete tables, edits and records.
use tonbo.Prelude.{
  ℕ, zero, suc, ◌+◌, Option, none, some, List, [], ◌∷◌, ◌++◌, length, ◌≡◌, refl, ap, arith,
}
use tonbo.Prelude.Result.{Result, ok, err, ◌>>=◌}
use tonbo.Timestamp.{new}
use tonbo.Scope.{Scope}
use tonbo.Version.Edit.{VersionEdit, add, remove, latest_timestamp, new_log_length}
use tonbo.Memtable.{middle}
use tonbo.Codec.{
  Bytes, ReadError, ended, Codec, HasBits, decode_each, encode_each, encode_scope, size_scope,
  encode_edit, decode_edit, encode_log, decode_log, encode_ts,
}
use tonbo.Codec.LittleEndian.{
  write_number, read_number, read_number-write_number, length-write_number, little_endian,
}
use tonbo.Codec.Laws.{FitsScope, decode_each-encode_edits, decode_log-encode_log}
use tonbo.Codec.Sizes.{wals_length, length-encode_scope}

abbrev table : Scope ℕ
table = record { min = 3; max = 900; gen = 7; wal_ids = some (1 ∷ 2 ∷ []); file_size = 4096 }

table-FitsScope : FitsScope (HasBits 32) table
table-FitsScope = (
  omega arith,
  omega arith,
  omega arith,
  omega arith,
  (omega arith, (omega arith, (omega arith, tt))),
)

length-encode_scope_example :
    length (encode_scope little_endian little_endian.u32 table)
    ≡ size_scope little_endian little_endian.u32 table + 8 + wals_length (some (1 ∷ 2 ∷ []))
length-encode_scope_example =
    length-encode_scope little_endian little_endian.u32 table table-FitsScope

abbrev edits : List (VersionEdit ℕ)
edits = add 1 table ∷ remove 0 9 ∷ latest_timestamp 77 ∷ new_log_length 3 ∷ []

decode_each-encode_edits_example :
    decode_each
      (decode_edit little_endian little_endian.u32)
      4
      (encode_each (encode_edit little_endian little_endian.u32) edits ++ [])
    ≡ ok (edits, [])
decode_each-encode_edits_example =
    decode_each-encode_edits little_endian little_endian.u32 edits [] (
      (omega arith, table-FitsScope),
      ((omega arith, omega arith), (omega arith, (omega arith, tt))),
    )

abbrev HasNumber : Option ℕ → Type 0
HasNumber none = Unit
HasNumber (some v) = HasBits 8 v

abbrev write_value : Option ℕ → Bytes
write_value none = 0 ∷ []
write_value (some v) = 1 ∷ write_number 1 v

abbrev value_size : Option ℕ → ℕ
value_size none = 1
value_size (some v) = 2

abbrev read_value : Bytes → Result (Option ℕ × Bytes) ReadError
read_value [] = err ended
read_value (zero ∷ b) = ok (none, b)
read_value (suc t ∷ b) = read_number 1 b >>= λ r. ok (some r.0, r.1)

read_value-write_value :
    (v : Option ℕ) (rest : Bytes) → HasNumber v → read_value (write_value v ++ rest) ≡ ok (v, rest)
read_value-write_value none rest h = refl
read_value-write_value (some v) rest h =
    rw (read_number-write_number 1 v rest (omega (arith, h))) refl

length-write_value : (v : Option ℕ) → HasNumber v → length (write_value v) ≡ value_size v
length-write_value none h = refl
length-write_value (some v) h = ap suc (length-write_number 1 v)

abbrev values : Codec (Option ℕ) HasNumber
values = record {
  encode = write_value;
  size = value_size;
  decode = read_value;
  decode-encode = read_value-write_value;
  length-encode = length-write_value;
}

decode_log-encode_log_example :
    decode_log little_endian little_endian.u32 values
      ((2 ∷ 1 ∷ 0 ∷ 0 ∷ 0 ∷ 5 ∷ 0 ∷ 0 ∷ 0 ∷ 1 ∷ 9 ∷ []) ++ 4 ∷ [])
    ≡ ok (record { key = new 5 1; value = some 9; log_type = some middle }, 4 ∷ [])
unfolding encode_log encode_ts write_number
decode_log-encode_log_example =
    decode_log-encode_log little_endian little_endian.u32 values (new 5 1) (some 9) middle
      (2 ∷ 1 ∷ 0 ∷ 0 ∷ 0 ∷ 5 ∷ 0 ∷ 0 ∷ 0 ∷ 1 ∷ 9 ∷ []) (4 ∷ []) (omega arith) (omega arith)
      (omega arith) refl
