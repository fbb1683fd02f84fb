-- ===== src/Codec/Laws.antt =====
-- What is encoded is decoded again.
use tonbo.Prelude.{
  ◌%◌, ◌^◌, ◌<◌, Option, none, some, List, [], ◌∷◌, ◌++◌, length, ◌≡◌, All, refl, arith,
  append_assoc, sym, some-eq,
}
use tonbo.Prelude.Result.{ok}
use tonbo.Timestamp.{Ts}
use tonbo.Scope.{Scope, FileId}
use tonbo.Version.Edit.{VersionEdit, add, remove, latest_timestamp, new_log_length}
use tonbo.Memtable.{LogType, full, first_part, middle, last_part}
use tonbo.Codec.{
  Bytes, Codec, HasBits, Numbers, encode_each, decode_each, log_tag, log_type_of, encode_ts,
  decode_ts, encode_wals, decode_wal_ids, encode_scope, decode_scope, encode_edit, decode_edit,
  encode_log, decode_log,
}

decode_each-encode_each {ℓ} :
    {A : Type ℓ} {Fits : A → Type 0} (c : Codec A Fits) (l : List A) (rest : Bytes)
    → All Fits l
    → decode_each c.decode (length l) (encode_each c.encode l ++ rest) ≡ ok (l, rest)
decode_each-encode_each c [] rest h = refl
decode_each-encode_each c (a ∷ l) rest h =
    rw
      (
        append_assoc (c.encode a) (encode_each c.encode l) rest,
        c.decode-encode a (encode_each c.encode l ++ rest) h.0,
        decode_each-encode_each c l rest h.1,
      )
      refl

-- what the fields of a table are in the program: a key, and numbers of their width
module _ {ℓ} {K : Type ℓ} (Fits : K → Type 0) where
  abbrev pub FitIds : Option (List FileId) → Type 0
  FitIds none = Unit
  FitIds (some ids) = length ids < 2 ^ 32 × All (HasBits 128) ids

  abbrev pub FitsScope : Scope K → Type 0
  FitsScope s =
      Fits s.min × Fits s.max × HasBits 128 s.gen × HasBits 64 s.file_size × FitIds s.wal_ids

  abbrev pub FitsEdit : VersionEdit K → Type 0
  FitsEdit (add level scope) = HasBits 8 level × FitsScope scope
  FitsEdit (remove level gen) = HasBits 8 level × HasBits 128 gen
  FitsEdit (latest_timestamp ts) = HasBits 32 ts
  FitsEdit (new_log_length len) = HasBits 32 len

module _ {ℓ} {K : Type ℓ} {Fits : K → Type 0} (n : Numbers) (key : Codec K Fits) where
  pub decode_ts-encode_ts :
      (t : Ts K) (rest : Bytes)
      → HasBits 32 t.ts
      → Fits t.value
      → decode_ts n key (encode_ts n key t ++ rest) ≡ ok (t, rest)
  unfolding decode_ts encode_ts
  decode_ts-encode_ts t rest h l =
      rw
        (
          append_assoc (n.u32.encode t.ts) (key.encode t.value) rest,
          n.u32.decode-encode t.ts (key.encode t.value ++ rest) h,
          key.decode-encode t.value rest l,
        )
        refl

  decode_wal_ids-encode_wals :
      (ids : Option (List FileId)) (rest : Bytes)
      → FitIds Fits ids
      → decode_wal_ids n key (encode_wals n key ids ++ rest) ≡ ok (ids, rest)
  unfolding decode_wal_ids
  decode_wal_ids-encode_wals none rest h = rw (n.u8.decode-encode 0 rest (omega arith)) refl
  decode_wal_ids-encode_wals (some ids) rest h =
      let len : length ids % 2 ^ 32 ≡ length ids = omega (arith, h.0) in
      simp (
        append_assoc,
        len,
        n.u8.decode-encode 1 _ (omega arith),
        n.u32.decode-encode (length ids) _ h.0,
        decode_each-encode_each n.file_id ids rest h.1,
      )

  -- A table is decoded as it was encoded, with what follows left, where its numbers have their widths
  -- and it has less than 2 ^ 32 logs.
  pub decode_scope-encode_scope :
      (s : Scope K) (rest : Bytes)
      → FitsScope Fits s
      → decode_scope n key (encode_scope n key s ++ rest) ≡ ok (s, rest)
  unfolding decode_scope encode_scope
  decode_scope-encode_scope s rest h = simp (
    append_assoc,
    key.decode-encode s.min _ h.0,
    key.decode-encode s.max _ h.1,
    n.file_id.decode-encode s.gen _ h.2,
    n.u64.decode-encode s.file_size _ h.3,
    decode_wal_ids-encode_wals s.wal_ids rest h.4,
  )

  -- An edit is decoded as it was encoded, with what follows left, where its numbers have their widths.
  pub decode_edit-encode_edit :
      (e : VersionEdit K) (rest : Bytes)
      → FitsEdit Fits e
      → decode_edit n key (encode_edit n key e ++ rest) ≡ ok (e, rest)
  unfolding decode_edit encode_edit
  decode_edit-encode_edit (add level scope) rest h = simp (
    append_assoc,
    n.u8.decode-encode 0 _ (omega arith),
    n.u8.decode-encode level _ h.0,
    decode_scope-encode_scope scope rest h.1,
  )
  decode_edit-encode_edit (remove level gen) rest h = simp (
    append_assoc,
    n.u8.decode-encode 1 _ (omega arith),
    n.u8.decode-encode level _ h.0,
    n.file_id.decode-encode gen rest h.1,
  )
  decode_edit-encode_edit (latest_timestamp ts) rest h =
      simp (append_assoc, n.u8.decode-encode 2 _ (omega arith), n.u32.decode-encode ts rest h)
  decode_edit-encode_edit (new_log_length len) rest h =
      simp (append_assoc, n.u8.decode-encode 3 _ (omega arith), n.u32.decode-encode len rest h)

  -- The edits of a log, one after the other, are decoded as they were encoded.
  pub decode_each-encode_edits :
      (es : List (VersionEdit K)) (rest : Bytes)
      → All (FitsEdit Fits) es
      → decode_each (decode_edit n key) (length es) (encode_each (encode_edit n key) es ++ rest)
        ≡ ok (es, rest)
  decode_each-encode_edits [] rest h = refl
  decode_each-encode_edits (e ∷ es) rest h =
      simp (append_assoc, decode_edit-encode_edit e _ h.0, decode_each-encode_edits es rest h.1)

  tag_fits : (t : LogType) → HasBits 8 (log_tag t)
  tag_fits full = omega arith
  tag_fits first_part = omega arith
  tag_fits middle = omega arith
  tag_fits last_part = omega arith

  log_type_of-log_tag : (t : LogType) → log_type_of (log_tag t) ≡ ok t
  log_type_of-log_tag full = refl
  log_type_of-log_tag first_part = refl
  log_type_of-log_tag middle = refl
  log_type_of-log_tag last_part = refl

  module _ {κ} {R : Type κ} {HasRecord : Option R → Type 0}
      (value : Codec (Option R) HasRecord) where
    -- A record of the write-ahead log that has a log type is decoded as it was encoded, with what
    -- follows left, where its timestamp has 32 bits.
    pub decode_log-encode_log :
        (k : Ts K) (v : Option R) (t : LogType) (b rest : Bytes)
        → HasBits 32 k.ts
        → Fits k.value
        → HasRecord v
        → encode_log n key value (record { key = k; value = v; log_type = some t }) ≡ some b
        → decode_log n key value (b ++ rest)
          ≡ ok (record { key = k; value = v; log_type = some t }, rest)
    unfolding decode_log encode_log
    decode_log-encode_log k v t b rest h l m e = rw (sym (some-eq _ b e)) (
        simp (
          append_assoc,
          n.u8.decode-encode (log_tag t) _ (tag_fits t),
          log_type_of-log_tag t,
          decode_ts-encode_ts k _ h l,
          value.decode-encode v rest m,
        ))
