-- ===== src/Proto/Buffer.antt =====
-- src/xrd/proto/buffer.py: the big-endian cursors. `Writer` is the bytes written so far, and a
-- method returns them with what it appends; `Reader` is a buffer with a position.
pub mod Split
pub mod RoundTrip
pub mod Reads
pub mod Advances
use py_xroot_dclient.Base.{
  ℕ, zero, suc, ◌+◌, ◌-◌, ◌*◌, ◌/◌, ◌%◌, ◌^◌, List, [], ◌∷◌, ◌++◌, Bytes, length, take, drop,
  replicate, ltb, leb, ◌==◌, if◌then◌else◌,
}
use py_xroot_dclient.Base.Int.{ℤ, pos, negsuc}
use py_xroot_dclient.Errors.{Result, ok, err, protocol_error, struct_error}

-- `struct`'s big-endian form of a number below 256 ^ n in n bytes, and its inverse.
unfoldable pub be : ℕ → ℕ → Bytes
be zero v = []
be (suc n) v = (v / 256 ^ n) ∷ be n (v % 256 ^ n)

unfoldable pub of_be : ℕ → Bytes → ℕ
of_be acc [] = acc
of_be acc (b ∷ bs) = of_be (acc * 256 + b) bs

-- Two's complement in n bytes.
unfoldable pub to_signed : ℕ → ℕ → ℤ
to_signed n v = if ltb v (256 ^ n / 2) then pos v else negsuc (256 ^ n - 1 - v)

unfoldable pub pack_unsigned : ℕ → ℕ → Result Bytes
pack_unsigned n v = if ltb v (256 ^ n) then ok (be n v) else err struct_error

unfoldable pub pack_signed : ℕ → ℤ → Result Bytes
pack_signed n (pos v) = if ltb v (256 ^ n / 2) then ok (be n v) else err struct_error
pack_signed n (negsuc v) =
    if ltb v (256 ^ n / 2) then ok (be n (256 ^ n - 1 - v)) else err struct_error

-- Writer

abbrev pub Writer : Type 0
Writer = Bytes

abbrev pub append_packed : Result Bytes → Writer → Result Writer
append_packed (ok bs) w = ok (w ++ bs)
append_packed (err e) w = err e

unfoldable pub u8 : ℕ → Writer → Result Writer
u8 v w = append_packed (pack_unsigned 1 v) w

unfoldable pub u16 : ℕ → Writer → Result Writer
u16 v w = append_packed (pack_unsigned 2 v) w

unfoldable pub u32 : ℕ → Writer → Result Writer
u32 v w = append_packed (pack_unsigned 4 v) w

unfoldable pub u64 : ℕ → Writer → Result Writer
u64 v w = append_packed (pack_unsigned 8 v) w

unfoldable pub i32 : ℤ → Writer → Result Writer
i32 v w = append_packed (pack_signed 4 v) w

unfoldable pub i64 : ℤ → Writer → Result Writer
i64 v w = append_packed (pack_signed 8 v) w

unfoldable pub raw : Bytes → Writer → Result Writer
raw bs w = ok (w ++ bs)

-- `text(s, nul=True)`
unfoldable pub text_nul : Bytes → Writer → Result Writer
text_nul s w = ok ((w ++ s) ++ (0 ∷ []))

unfoldable pub zeros : ℕ → Writer → Result Writer
zeros n w = ok (w ++ replicate n 0)

-- `b[:width].ljust(width, b"\x00")`
unfoldable pub pad : Bytes → ℕ → Bytes
pad b width = take width b ++ replicate (width - length b) 0

unfoldable pub padded : Bytes → ℕ → Writer → Result Writer
padded b width w = ok (w ++ pad b width)

-- Reader

pub record Reader : Type 0 where
  pub buf : Bytes
  pub at : ℕ

abbrev pub Parser : Type 0 → Type 0
Parser A = Reader → Result (A × Reader)

infixl 5 ◌>>=◌ ◌>>◌
abbrev pub ◌>>=◌ : {A B : Type 0} → Parser A → (A → Parser B) → Parser B
◌>>=◌ p f r = elim (p r) [ ok (a, r') ↦ f a r' | err e ↦ err e ]

abbrev pub ◌>>◌ : {A B : Type 0} → Parser A → Parser B → Parser B
p >> q = p >>= λ _. q

abbrev pub pure : {A : Type 0} → A → Parser A
pure a r = ok (a, r)

abbrev pub fail : {A : Type 0} → Parser A
fail r = err protocol_error

-- Run a parser on a whole body and keep its result.
abbrev pub parse_with : {A : Type 0} → Parser A → Bytes → Result A
parse_with p body = elim (p (record { buf = body; at = 0 })) [ ok (a, r) ↦ ok a | err e ↦ err e ]

unfoldable pub remaining : Reader → ℕ
remaining r = length r.buf - r.at

-- `_take`; `bytes`, `view` and `skip` are this with the chunk copied, not copied or dropped.
unfoldable pub take_bytes : ℤ → Parser Bytes
take_bytes (negsuc n) r = err protocol_error
take_bytes (pos n) r =
    if ltb (length r.buf) (r.at + n)
    then err protocol_error
    else ok (take n (drop r.at r.buf), record r { at = r.at + n })

unfoldable pub read_unsigned : ℕ → Parser ℕ
read_unsigned n r = elim (take_bytes (pos n) r) [
  | ok (bs, r') ↦ ok (of_be 0 bs, r')
  | err e ↦ err e
]

unfoldable pub read_signed : ℕ → Parser ℤ
read_signed n r = elim (take_bytes (pos n) r) [
  | ok (bs, r') ↦ ok (to_signed n (of_be 0 bs), r')
  | err e ↦ err e
]

abbrev pub read_u8 : Parser ℕ
read_u8 = read_unsigned 1

abbrev pub read_u16 : Parser ℕ
read_u16 = read_unsigned 2

abbrev pub read_u32 : Parser ℕ
read_u32 = read_unsigned 4

abbrev pub read_u64 : Parser ℕ
read_u64 = read_unsigned 8

abbrev pub read_i32 : Parser ℤ
read_i32 = read_signed 4

abbrev pub read_i64 : Parser ℤ
read_i64 = read_signed 8

unfoldable pub rest : Parser Bytes
unfolding remaining
rest r = take_bytes (pos (remaining r)) r

-- `raw.split(b"\x00", 1)[0]`, also the `tail[:end]` of `cstring()`.
unfoldable pub until_nul : Bytes → Bytes
until_nul [] = []
until_nul (b ∷ bs) = if b == 0 then [] else b ∷ until_nul bs

-- `cstring(n)`
unfoldable pub cstring_fixed : ℤ → Parser Bytes
cstring_fixed n r = elim (take_bytes n r) [ ok (bs, r') ↦ ok (until_nul bs, r') | err e ↦ err e ]

-- `cstring()`: the cursor passes the terminator, if there is one.
unfoldable pub cstring : Parser Bytes
unfolding until_nul
cstring r =
    let tail = drop r.at r.buf in
    let text = until_nul tail in
    ok (
      text,
      record r {
        at = r.at + (if length text == length tail then length tail else length text + 1);
      },
    )
