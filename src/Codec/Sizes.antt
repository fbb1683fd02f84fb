-- ===== src/Codec/Sizes.antt =====
-- What `Scope::size` says, and how many bytes a table takes in a log.
use tonbo.Prelude.{
  ℕ, ◌+◌, ◌*◌, ◌%◌, ◌^◌, Option, none, some, List, [], ◌∷◌, ◌++◌, length, ◌≡◌, All, arith,
  length-append,
}
use tonbo.Scope.{Scope, FileId}
use tonbo.Codec.{Codec, HasBits, Numbers, encode_each, encode_wals, encode_scope, size_scope}
use tonbo.Codec.Laws.{FitIds, FitsScope}

-- the bytes of the ids of the logs of a table
abbrev pub wals_length : Option (List FileId) → ℕ
wals_length none = 1
wals_length (some ids) = 5 + 16 * length ids

module _ {ℓ} {K : Type ℓ} {Fits : K → Type 0} (n : Numbers) (key : Codec K Fits) where
  length-encode_ids :
      (ids : List FileId)
      → All (HasBits 128) ids
      → length (encode_each n.file_id.encode ids) ≡ 16 * length ids
  length-encode_ids [] h = omega arith
  length-encode_ids (a ∷ ids) h = omega (
    arith,
    length-append (n.file_id.encode a) (encode_each n.file_id.encode ids),
    n.file_id.length-encode a h.0,
    n.file_id_size a,
    length-encode_ids ids h.1,
  )

  length-encode_wals :
      (ids : Option (List FileId))
      → FitIds Fits ids
      → length (encode_wals n key ids) ≡ wals_length ids
  length-encode_wals none h = omega (arith, n.u8.length-encode 0 (omega arith), n.u8_size 0)
  length-encode_wals (some ids) h =
      let tag = n.u8.encode 1 in
      let len = n.u32.encode (length ids % 2 ^ 32) in
      omega (
        arith,
        length-append (tag ++ len) (encode_each n.file_id.encode ids),
        length-append tag len,
        n.u8.length-encode 1 (omega arith),
        n.u8_size 1,
        n.u32.length-encode (length ids % 2 ^ 32) (omega arith),
        n.u32_size (length ids % 2 ^ 32),
        length-encode_ids ids h.1,
      )

  -- A table takes more bytes than `size` says, by the 8 of the file's size and those of the ids of its
  -- logs, where its numbers have their widths.
  pub length-encode_scope :
      (s : Scope K)
      → FitsScope Fits s
      → length (encode_scope n key s) ≡ size_scope n key s + 8 + wals_length s.wal_ids
  unfolding encode_scope size_scope
  length-encode_scope s h =
      simp
        (
          length-append,
          key.length-encode s.min h.0,
          key.length-encode s.max h.1,
          n.file_id.length-encode s.gen h.2,
          n.file_id_size s.gen,
          n.u64.length-encode s.file_size h.3,
          n.u64_size s.file_size,
          length-encode_wals s.wal_ids h.4,
        )
        (omega arith)
