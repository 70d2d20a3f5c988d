-- ===== src/Proto/Buffer/RoundTrip.antt =====
-- Reading back what was written.
use py_xroot_dclient.Errors.{ok}
use py_xroot_dclient.Base.Int.{pos, ℤ, negsuc}
use native.Mathlib.Nat.{pow-suc, div-add-mod, mod-lt, one-le-pow}
use py_xroot_dclient.Base.{
  ℕ, zero, suc, ◌+◌, ◌*◌, ◌/◌, ◌%◌, ◌^◌, ◌<◌, ◌≡◌, refl, arith, ap, length, All, IsByte, Bytes,
  le→ltb, sym, ◌++◌, ◌∙◌, length-append, drop-length, take-length, ◌-◌, take, replicate,
  length-take, length-replicate,
}
use py_xroot_dclient.Proto.Buffer.{
  be, of_be, pack_unsigned, take_bytes, Reader, read_unsigned, read_signed, pack_signed, to_signed,
  pad,
}

pub length-be : (n v : ℕ) → length (be n v) ≡ n
unfolding be
length-be zero v = refl
length-be (suc n) v = ap suc (length-be n (v % 256 ^ n))

pow_pos : (n : ℕ) → 0 < 256 ^ n
pow_pos n = one-le-pow n 256 (omega arith)

div_lt : (n v : ℕ) → v < 256 ^ suc n → v / 256 ^ n < 256
div_lt n v h = grind (arith, pow-suc 256 n, pow_pos n)

pub be-IsByte : (n v : ℕ) → v < 256 ^ n → All IsByte (be n v)
unfolding be
be-IsByte zero v h = tt
be-IsByte (suc n) v h = (div_lt n v h, be-IsByte n (v % 256 ^ n) (mod-lt v (pow_pos n)))

pub of_be-be : (n v acc : ℕ) → v < 256 ^ n → of_be acc (be n v) ≡ acc * 256 ^ n + v
unfolding be of_be
of_be-be zero v acc h = omega arith
of_be-be (suc n) v acc h = omega (
  arith,
  of_be-be n (v % 256 ^ n) (acc * 256 + v / 256 ^ n) (mod-lt v (pow_pos n)),
  ap (λ (t : ℕ). acc * t) (pow-suc 256 n),
  div-add-mod v (256 ^ n),
)

-- A cursor at the end of `front`, with `bs` in front of it.
abbrev pub before : Bytes → Bytes → Bytes → Reader
before front bs more = record { buf = front ++ (bs ++ more); at = length front }

abbrev pub behind : Bytes → Bytes → Bytes → Reader
behind front bs more = record { buf = front ++ (bs ++ more); at = length front + length bs }

pub take_bytes-before :
    (front bs more : Bytes)
    → take_bytes (pos (length bs)) (before front bs more) ≡ ok (bs, behind front bs more)
unfolding take_bytes
take_bytes-before front bs more = rw (
  le→ltb (length (front ++ (bs ++ more))) (length front + length bs)
      (omega (arith, length-append front (bs ++ more), length-append bs more)),
  drop-length front (bs ++ more),
  take-length bs more,
)

pub pack_unsigned-ok :
    (n v : ℕ) (bs : Bytes) → pack_unsigned n v ≡ ok bs → (v < 256 ^ n) × (bs ≡ be n v)
unfolding pack_unsigned
pack_unsigned-ok n v bs h = ground arith

pub of_be_written : (n v : ℕ) {bs : Bytes} → v < 256 ^ n → bs ≡ be n v → of_be 0 bs ≡ v
of_be_written n v fits e = rw (e, of_be-be n v 0 fits) (omega arith)

module _ (n v : ℕ) (front bs more : Bytes) (e : bs ≡ be n v) where
  take_bytes-be : take_bytes (pos n) (before front bs more) ≡ ok (bs, behind front bs more)
  take_bytes-be = rw (sym (length-be n v) ∙ ap length (sym e)) (take_bytes-before front bs more)

-- What `struct` packs as an unsigned number of n bytes, the reader reads back wherever it stands,
-- and its cursor ends behind it.
pub read_unsigned-pack :
    (n v : ℕ) (front bs more : Bytes)
    → pack_unsigned n v ≡ ok bs
    → read_unsigned n (before front bs more) ≡ ok (v, behind front bs more)
unfolding read_unsigned
read_unsigned-pack n v front bs more h =
    let (fits, e) = pack_unsigned-ok n v bs h in
    rw (take_bytes-be n v front bs more e, read_unsigned, of_be_written n v fits e)

-- The bit pattern of a packed signed number, and what it stands for.
pub pattern_of : ℕ → ℤ → ℕ
pattern_of n (pos v) = v
pattern_of n (negsuc v) = 256 ^ n - 1 - v

pub pack_signed-ok :
    (n : ℕ) (z : ℤ) (bs : Bytes)
    → pack_signed n z ≡ ok bs
    → (pattern_of n z < 256 ^ n) × (bs ≡ be n (pattern_of n z)) × (to_signed n (pattern_of n z) ≡ z)
unfolding pack_signed pattern_of to_signed
pack_signed-ok n (pos v) bs h = ground (arith, pow_pos n)
pack_signed-ok n (negsuc v) bs h = ground (arith, pow_pos n)

-- What `struct` packs as a signed number of n bytes, in two's complement, the reader reads back
-- wherever it stands, and its cursor ends behind it.
pub read_signed-pack :
    (n : ℕ) (z : ℤ) (front bs more : Bytes)
    → pack_signed n z ≡ ok bs
    → read_signed n (before front bs more) ≡ ok (z, behind front bs more)
unfolding read_signed
read_signed-pack n z front bs more h =
    let (fits, e, back) = pack_signed-ok n z bs h in
    let u = pattern_of n z in
    rw (take_bytes-be n u front bs more e, read_signed, of_be_written n u fits e, back)

pub length-pack_unsigned : (n v : ℕ) (bs : Bytes) → pack_unsigned n v ≡ ok bs → length bs ≡ n
length-pack_unsigned n v bs h = ap length (pack_unsigned-ok n v bs h).1 ∙ length-be n v

pub length-pack_signed : (n : ℕ) (z : ℤ) (bs : Bytes) → pack_signed n z ≡ ok bs → length bs ≡ n
length-pack_signed n z bs h = ap length (pack_signed-ok n z bs h).1 ∙ length-be n (pattern_of n z)

pub length-pad : (b : Bytes) (width : ℕ) → length (pad b width) ≡ width
unfolding pad
length-pad b width = omega (
  arith,
  length-append (take width b) (replicate (width - length b) 0),
  length-take width b,
  length-replicate (width - length b) (zero),
)
