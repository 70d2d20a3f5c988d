-- ===== src/Crypto/Der.antt =====
-- src/xrd/crypto/der.py. A position in the data is the bytes from it on. `DERError` is a subclass of
-- `ValueError`, and is `value_error` here. A dotted identifier is the list of its numbers.
pub mod Parts
pub mod RoundTrip
pub mod Oid
use py_xroot_dclient.Base.{
  ℕ, Bytes, [], ◌∷◌, zero, suc, ◌+◌, ◌-◌, ◌*◌, ◌/◌, ◌%◌, Bool, if◌then◌else◌, List, not, length,
  ◌==◌, ltb, min, is_nil, take, drop,
}
use py_xroot_dclient.Base.Int.{ℤ, pos, negsuc}
use py_xroot_dclient.Proto.Buffer.{of_be, to_signed}
use py_xroot_dclient.Errors.{Result, ok, err, ◌>>=◌, value_error, stuck}

abbrev pub tag_integer : ℕ
tag_integer = 0x02

abbrev pub tag_oid : ℕ
tag_oid = 0x06

pub record Element : Type 0 where
  pub tag : ℕ
  pub value : Bytes

-- `_read_length`: the length, and what is behind it.
unfoldable pub read_length : Bytes → Result (ℕ × Bytes)
read_length [] = err value_error
read_length (first ∷ rest) =
    if ltb first 128
    then ok (first, rest)
    else if first % 128 == 0
    then err value_error
    else if ltb 4 (first % 128)
    then err value_error
    else if ltb (length rest) (first % 128)
    then err value_error
    else ok (of_be 0 (take (first % 128) rest), drop (first % 128) rest)

unfoldable pub cut_value : ℕ → ℕ × Bytes → Result (Element × Bytes)
cut_value t (n, rest) =
    if ltb (length rest) n
    then err value_error
    else ok (record { tag = t; value = take n rest }, drop n rest)

-- `parse`: the element, and what is behind it.
unfoldable pub parse_element : Bytes → Result (Element × Bytes)
parse_element [] = err value_error
parse_element (t ∷ rest) =
    if t % 32 == 31 then err value_error else read_length rest >>= cut_value t

-- The loop of `parse_all`.
unfoldable pub parse_loop : ℕ → Bytes → Result (List Element)
parse_loop fuel [] = ok []
parse_loop zero (b ∷ bs) = err stuck
parse_loop (suc fuel) (b ∷ bs) =
    parse_element (b ∷ bs) >>= λ r. parse_loop fuel r.1 >>= λ es. ok (r.0 ∷ es)

-- `parse_all`. An element is at least two bytes, so there are at most as many as bytes.
unfoldable pub parse_all : Bytes → Result (List Element)
parse_all bs = parse_loop (length bs) bs

-- `Element.constructed` and `Element.children`
unfoldable pub constructed : Element → Bool
constructed e = not (e.tag / 32 % 2 == 0)

unfoldable pub children : Element → Result (List Element)
children e = if constructed e then parse_all e.value else err value_error

unfoldable pub read_integer : Element → Result ℤ
read_integer e =
    if e.tag == tag_integer
    then elim e.value [
      | [] ↦ err value_error
      | b ∷ bs ↦ ok (to_signed (length (b ∷ bs)) (of_be 0 (b ∷ bs)))
    ]
    else err value_error

-- The loop over the bytes behind the first: `(value << 7) | (byte & 0x7F)`.
unfoldable pub read_arcs : ℕ → Bytes → Result (List ℕ)
read_arcs value [] = ok []
read_arcs value (b ∷ bs) =
    let now = value * 128 + b % 128 in
    let fresh = read_arcs 0 bs in
    let further = read_arcs now bs in
    if ltb b 128
    then fresh >>= (λ arcs. ok (now ∷ arcs))
    else if is_nil bs
    then err value_error
    else further

-- `oid_string`, as the numbers that it joins by dots.
unfoldable pub oid_numbers : Element → Result (List ℕ)
oid_numbers e =
    if e.tag == tag_oid
    then elim e.value [
      | [] ↦ err value_error
      | b ∷ bs ↦ read_arcs 0 bs >>= λ arcs. ok (min (b / 40) 2 ∷ (b - 40 * min (b / 40) 2) ∷ arcs)
    ]
    else err value_error
