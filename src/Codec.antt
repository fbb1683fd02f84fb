-- ===== src/Codec.antt =====
-- The traits `Encode` and `Decode` of the library fusio_log, as a pair of functions on bytes with the
-- law that the library promises for its own types, and the encodings of the engine's types over it:
-- src/version/timestamp.rs, src/scope.rs, src/version/edit.rs and src/wal/log.rs.
-- A writer takes all bytes; a reader is the bytes that are left. `panics` is an `unreachable!()` or an
-- `unwrap` of an error, `invalid_type` a type that no value has.
pub mod Laws
pub mod Sizes
pub mod LittleEndian
mod Examples
use tonbo.Prelude.{
  ℕ, zero, suc, ◌+◌, ◌%◌, ◌^◌, ◌<◌, Option, none, some, List, [], ◌∷◌, ◌++◌, length, ◌≡◌, All,
  compare, Ordering, eq,
}
use tonbo.Prelude.Result.{Result, ok, err, ◌>>=◌}
use tonbo.Timestamp.{Timestamp, Ts, new}
use tonbo.Scope.{Scope, FileId}
use tonbo.Version.Edit.{VersionEdit, add, remove, latest_timestamp, new_log_length}
use tonbo.Memtable.{LogType, full, first_part, middle, last_part, Log}

abbrev pub Bytes : Type 0
Bytes = List ℕ

pub data ReadError : Type 0 where
  ended panics invalid_type : ReadError

-- `Fits` are the values that the type in the program has.
pub record Codec {ℓ} (A : Type ℓ) (Fits : A → Type 0) : Type ℓ where
  pub encode : A → Bytes
  pub size : A → ℕ
  pub decode : Bytes → Result (A × Bytes) ReadError
  pub decode-encode : (a : A) (rest : Bytes) → Fits a → decode (encode a ++ rest) ≡ ok (a, rest)
  pub length-encode : (a : A) → Fits a → length (encode a) ≡ size a

-- a number of so many bits
abbrev pub HasBits : ℕ → ℕ → Type 0
HasBits w n = n < 2 ^ w

-- the codecs of `u8`, `u32`, `u64` and of the 16 bytes of a file id
pub record Numbers : Type 0 where
  pub u8 : Codec ℕ (HasBits 8)
  pub u32 : Codec ℕ (HasBits 32)
  pub u64 : Codec ℕ (HasBits 64)
  pub file_id : Codec FileId (HasBits 128)
  pub u8_size : (a : ℕ) → u8.size a ≡ 1
  pub u32_size : (a : ℕ) → u32.size a ≡ 4
  pub u64_size : (a : ℕ) → u64.size a ≡ 8
  pub file_id_size : (a : FileId) → file_id.size a ≡ 16

-- the bytes of a sequence
abbrev pub encode_each {ℓ} : {A : Type ℓ} → (A → Bytes) → List A → Bytes
encode_each encode [] = []
encode_each encode (a ∷ l) = encode a ++ encode_each encode l

-- the loop that reads so many
abbrev pub decode_each {ℓ} :
    {A : Type ℓ}
    → (Bytes → Result (A × Bytes) ReadError)
    → ℕ
    → Bytes
    → Result (List A × Bytes) ReadError
decode_each decode zero b = ok ([], b)
decode_each decode (suc n) b =
    decode b >>= λ a. decode_each decode n a.1 >>= λ l. ok (a.0 ∷ l.0, l.1)

-- `log_type as u8`, and `LogType::from`
abbrev pub log_tag : LogType → ℕ
log_tag full = 0
log_tag first_part = 1
log_tag middle = 2
log_tag last_part = 3

abbrev pub log_type_of : ℕ → Result LogType ReadError
log_type_of zero = ok full
log_type_of (suc zero) = ok first_part
log_type_of (suc (suc zero)) = ok middle
log_type_of (suc (suc (suc zero))) = ok last_part
log_type_of _ = err panics

-- `unwrap` of a read
abbrev pub unwrapped {ℓ} : {A : Type ℓ} → Result A ReadError → Result A ReadError
unwrapped (ok a) = ok a
unwrapped (err e) = err panics

module _ (n : Numbers) where
  abbrev pub encode_timestamp : Timestamp → Bytes
  encode_timestamp ts = n.u32.encode ts

  abbrev pub decode_timestamp : Bytes → Result (Timestamp × Bytes) ReadError
  decode_timestamp b = n.u32.decode b

  module _ {ℓ} {V : Type ℓ} {Fits : V → Type 0} (v : Codec V Fits) where
    unfoldable pub encode_ts : Ts V → Bytes
    encode_ts t = encode_timestamp t.ts ++ v.encode t.value

    unfoldable pub size_ts : Ts V → ℕ
    size_ts t = n.u32.size t.ts + v.size t.value

    unfoldable pub decode_ts : Bytes → Result (Ts V × Bytes) ReadError
    decode_ts b =
        decode_timestamp b >>= λ ts. v.decode ts.1 >>= λ value. ok (new value.0 ts.0, value.1)

  module _ {ℓ} {K : Type ℓ} {Fits : K → Type 0} (key : Codec K Fits) where
    abbrev pub encode_wals : Option (List FileId) → Bytes
    encode_wals none = n.u8.encode 0
    encode_wals (some ids) =
        n.u8.encode 1 ++ n.u32.encode (length ids % 2 ^ 32) ++ encode_each n.file_id.encode ids

    unfoldable pub encode_scope : Scope K → Bytes
    encode_scope s =
        key.encode s.min
        ++ key.encode s.max
        ++ n.file_id.encode s.gen
        ++ n.u64.encode s.file_size
        ++ encode_wals s.wal_ids

    -- `Scope::size`
    unfoldable pub size_scope : Scope K → ℕ
    size_scope s = key.size s.min + key.size s.max + 16

    -- the `match` on the tag
    abbrev pub decode_wals : ℕ → Bytes → Result (Option (List FileId) × Bytes) ReadError
    decode_wals zero b = ok (none, b)
    decode_wals (suc zero) b = n.u32.decode b >>= λ len.
        decode_each n.file_id.decode len.0 len.1 >>= λ ids. ok (some ids.0, ids.1)
    decode_wals _ b = err panics

    unfoldable pub decode_wal_ids : Bytes → Result (Option (List FileId) × Bytes) ReadError
    decode_wal_ids b = n.u8.decode b >>= λ tag. decode_wals tag.0 tag.1

    unfoldable pub decode_scope : Bytes → Result (Scope K × Bytes) ReadError
    decode_scope b = key.decode b >>= λ min. key.decode min.1 >>= λ max.
        n.file_id.decode max.1 >>= λ gen. n.u64.decode gen.1 >>= λ size.
        decode_wal_ids size.1 >>= λ wal_ids. ok (
          record { min = min.0; max = max.0; gen = gen.0; wal_ids = wal_ids.0; file_size = size.0 },
          wal_ids.1,
        )

    unfoldable pub encode_edit : VersionEdit K → Bytes
    encode_edit (add level scope) = n.u8.encode 0 ++ n.u8.encode level ++ encode_scope scope
    encode_edit (remove level gen) = n.u8.encode 1 ++ n.u8.encode level ++ n.file_id.encode gen
    encode_edit (latest_timestamp ts) = n.u8.encode 2 ++ encode_timestamp ts
    encode_edit (new_log_length len) = n.u8.encode 3 ++ n.u32.encode len

    unfoldable pub size_edit : VersionEdit K → ℕ
    size_edit (add level scope) = 2 + size_scope scope
    size_edit (remove level gen) = 2 + 16
    size_edit (latest_timestamp ts) = 2 + n.u32.size ts
    size_edit (new_log_length len) = 2 + 4

    -- the `match` on the tag
    abbrev pub decode_edit_as : ℕ → Bytes → Result (VersionEdit K × Bytes) ReadError
    decode_edit_as zero b = n.u8.decode b >>= λ level.
        decode_scope level.1 >>= λ scope. ok (add level.0 scope.0, scope.1)
    decode_edit_as (suc zero) b = n.u8.decode b >>= λ level.
        n.file_id.decode level.1 >>= λ gen. ok (remove level.0 gen.0, gen.1)
    decode_edit_as (suc (suc zero)) b =
        decode_timestamp b >>= λ ts. ok (latest_timestamp ts.0, ts.1)
    decode_edit_as (suc (suc (suc zero))) b =
        n.u32.decode b >>= λ len. ok (new_log_length len.0, len.1)
    decode_edit_as _ b = err panics

    unfoldable pub decode_edit : Bytes → Result (VersionEdit K × Bytes) ReadError
    decode_edit b = n.u8.decode b >>= λ tag. decode_edit_as tag.0 tag.1

    -- A log record; `value` is the codec of an optional record. A record without a log type panics.
    module _ {κ} {R : Type κ} {HasRecord : Option R → Type 0}
        (value : Codec (Option R) HasRecord) where
      unfoldable pub encode_log : Log K R → Option Bytes
      encode_log log = elim log.log_type [
        | none ↦ none
        | some t ↦ some (n.u8.encode (log_tag t) ++ encode_ts key log.key ++ value.encode log.value)
      ]

      unfoldable pub decode_log : Bytes → Result (Log K R × Bytes) ReadError
      decode_log b = n.u8.decode b >>= λ tag. log_type_of tag.0 >>= λ t.
          unwrapped (decode_ts key tag.1) >>= λ k. unwrapped (value.decode k.1) >>= λ v.
          ok (record { key = k.0; value = v.0; log_type = some t }, v.1)
