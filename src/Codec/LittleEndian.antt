-- ===== src/Codec/LittleEndian.antt =====
-- Codecs that keep the laws: numbers as bytes, the least first, and what is made of them.
use tonbo.Prelude.{
  ℕ, zero, suc, ◌+◌, ◌-◌, ◌*◌, ◌/◌, ◌%◌, ◌^◌, ◌<◌, Bool, true, false, [], ◌∷◌, ◌++◌, length, ◌≡◌,
  refl, ap, sym, arith, append_assoc, length-append, ltb, if◌then◌else◌, lt→ltb,
}
use tonbo.Prelude.Result.{Result, ok, err, ◌>>=◌}
use tonbo.Prelude.Integers.{ℤ, pos, negsuc}
use tonbo.Codec.{Bytes, ReadError, ended, Codec, HasBits, Numbers}

unfoldable pub write_number : ℕ → ℕ → Bytes
write_number zero n = []
write_number (suc w) n = n % 256 ∷ write_number w (n / 256)

unfoldable pub read_number : ℕ → Bytes → Result (ℕ × Bytes) ReadError
read_number zero b = ok (0, b)
read_number (suc w) [] = err ended
read_number (suc w) (x ∷ b) = read_number w b >>= λ r. ok (x + 256 * r.0, r.1)

abbrev pub limit : ℕ → ℕ
limit zero = 1
limit (suc w) = 256 * limit w

quotient_below : (n m : ℕ) → n < 256 * m → n / 256 < m
quotient_below n m h = omega arith

whole : (n : ℕ) → n % 256 + 256 * (n / 256) ≡ n
whole n = omega arith

pub read_number-write_number :
    (w n : ℕ) (rest : Bytes) → n < limit w → read_number w (write_number w n ++ rest) ≡ ok (n, rest)
unfolding write_number read_number
read_number-write_number zero n rest h = ap (λ m. ok (m, rest)) (omega arith)
read_number-write_number (suc w) n rest h =
    rw (read_number-write_number w (n / 256) rest (quotient_below n (limit w) h))
      (ap (λ m. ok (m, rest)) (whole n))

pub length-write_number : (w n : ℕ) → length (write_number w n) ≡ w
unfolding write_number
length-write_number zero n = refl
length-write_number (suc w) n = ap suc (length-write_number w (n / 256))

abbrev pub number : (w b : ℕ) → ((n : ℕ) → HasBits b n → n < limit w) → Codec ℕ (HasBits b)
number w b fits = record {
  encode = write_number w;
  size = λ n. w;
  decode = read_number w;
  decode-encode = λ n rest h. read_number-write_number w n rest (fits n h);
  length-encode = λ n h. length-write_number w n;
}

abbrev pub little_endian : Numbers
little_endian = record {
  u8 = number 1 8 (λ n h. omega arith);
  u32 = number 4 32 (λ n h. omega arith);
  u64 = number 8 64 (λ n h. omega arith);
  file_id = number 16 128 (λ n h. omega arith);
  u8_size = λ n. refl;
  u32_size = λ n. refl;
  u64_size = λ n. refl;
  file_id_size = λ n. refl;
}

abbrev pub HasSigned : ℕ → ℤ → Type 0
HasSigned w (pos n) = n < 2 ^ w
HasSigned w (negsuc n) = n < 2 ^ w

-- two's complement of a range of `2 * half` numbers
abbrev pub to_unsigned : ℕ → ℤ → ℕ
to_unsigned half (pos n) = n
to_unsigned half (negsuc n) = 2 * half - 1 - n

abbrev pub to_signed : ℕ → ℕ → ℤ
to_signed half n = if ltb n half then pos n else negsuc (2 * half - 1 - n)

not_below : (m n : ℕ) → n < m → ltb (2 * m - 1 - n) m ≡ false
not_below m n h = ground arith

twice_less : (m n : ℕ) → n < m → 2 * m - 1 - (2 * m - 1 - n) ≡ n
twice_less m n h = omega arith

pub to_signed-to_unsigned :
    (b : ℕ) (z : ℤ) → HasSigned b z → to_signed (2 ^ b) (to_unsigned (2 ^ b) z) ≡ z
to_signed-to_unsigned b (pos n) h = rw (lt→ltb n (2 ^ b) h) refl
to_signed-to_unsigned b (negsuc n) h =
    rw (not_below (2 ^ b) n h) (ap negsuc (twice_less (2 ^ b) n h))

pub unsigned_fits : (b : ℕ) (z : ℤ) → HasSigned b z → to_unsigned (2 ^ b) z < 2 * 2 ^ b
unsigned_fits b (pos n) h = omega arith
unsigned_fits b (negsuc n) h = omega arith

abbrev pub signed : (w b : ℕ) → 2 * 2 ^ b ≡ limit w → Codec ℤ (HasSigned b)
signed w b e = record {
  encode = λ z. write_number w (to_unsigned (2 ^ b) z);
  size = λ z. w;
  decode = λ bytes. read_number w bytes >>= λ r. ok (to_signed (2 ^ b) r.0, r.1);
  decode-encode = λ z rest h.
      rw
        (read_number-write_number w (to_unsigned (2 ^ b) z) rest (rw (sym e) (unsigned_fits b z h)))
        (ap (λ t. ok (t, rest)) (to_signed-to_unsigned b z h));
  length-encode = λ z h. length-write_number w (to_unsigned (2 ^ b) z);
}

abbrev write_bool : Bool → Bytes
write_bool true = 1 ∷ []
write_bool false = 0 ∷ []

abbrev read_bool : Bytes → Result (Bool × Bytes) ReadError
read_bool [] = err ended
read_bool (zero ∷ b) = ok (false, b)
read_bool (suc n ∷ b) = ok (true, b)

abbrev AnyBool : Bool → Type 0
AnyBool b = Unit

pub read_bool-write_bool :
    (v : Bool) (rest : Bytes) → read_bool (write_bool v ++ rest) ≡ ok (v, rest)
read_bool-write_bool true rest = refl
read_bool-write_bool false rest = refl

pub length-write_bool : (v : Bool) → length (write_bool v) ≡ 1
length-write_bool true = refl
length-write_bool false = refl

abbrev pub bools : Codec Bool AnyBool
bools = record {
  encode = write_bool;
  size = λ v. 1;
  decode = read_bool;
  decode-encode = λ v rest h. read_bool-write_bool v rest;
  length-encode = λ v h. length-write_bool v;
}

-- so many bytes
abbrev read_bytes : ℕ → Bytes → Result (Bytes × Bytes) ReadError
read_bytes zero b = ok ([], b)
read_bytes (suc n) [] = err ended
read_bytes (suc n) (x ∷ b) = read_bytes n b >>= λ r. ok (x ∷ r.0, r.1)

pub read_bytes-append : (t rest : Bytes) → read_bytes (length t) (t ++ rest) ≡ ok (t, rest)
read_bytes-append [] rest = refl
read_bytes-append (x ∷ t) rest = rw (read_bytes-append t rest) refl

abbrev HasLength : Bytes → Type 0
HasLength t = length t < 2 ^ 32

pub length_fits : (t : Bytes) → HasLength t → length t < limit 4
length_fits t h = omega arith

-- a length of four bytes, and the bytes
abbrev pub texts : Codec Bytes HasLength
texts = record {
  encode = λ t. write_number 4 (length t) ++ t;
  size = λ t. 4 + length t;
  decode = λ b. read_number 4 b >>= λ n. read_bytes n.0 n.1;
  decode-encode = λ t rest h. simp (
    append_assoc,
    read_number-write_number 4 (length t) (t ++ rest) (length_fits t h),
    read_bytes-append t rest,
  );
  length-encode = λ t h.
      omega (arith, length-append (write_number 4 (length t)) t, length-write_number 4 (length t));
}
