-- ===== src/Crypto/Der/RoundTrip.antt =====
-- The encoding that src/xrd/crypto/der.py reads, as X.690 describes it, and reading it back.
use py_xroot_dclient.Base.Cases.{on_test}
use mathlib.Core.List.{append_assoc}
use py_xroot_dclient.Base.{
  ℕ, Bytes, [], ◌∷◌, zero, suc, ◌+◌, ◌%◌, refl, ◌++◌, List, ◌≡◌, if◌then◌else◌, ◌≤◌, ◌<◌, length,
  ◌^◌, All, ltb, ◌==◌, false, arith, le→ltb, length-append, ltb→lt, take_front, take-length,
  drop_front, ap, drop-length,
}
use py_xroot_dclient.Crypto.Der.{
  Element, read_length, cut_value, parse_element, parse_loop, parse_all,
}
use py_xroot_dclient.Proto.Buffer.{be}
use py_xroot_dclient.Proto.Buffer.RoundTrip.{of_be-be, length-be}
use py_xroot_dclient.Errors.{ok}

-- A length below 128 is one byte; another is the number of its bytes, plus 128, and its bytes.
abbrev pub length_octets : ℕ → Bytes
length_octets n =
    if ltb n 128
    then n ∷ []
    else if ltb n 256
    then 129 ∷ be 1 n
    else if ltb n 65536
    then 130 ∷ be 2 n
    else if ltb n 16777216
    then 131 ∷ be 3 n
    else 132 ∷ be 4 n

abbrev pub spell : Element → Bytes
spell e = e.tag ∷ length_octets (length e.value) ++ e.value

abbrev pub spell_all : List Element → Bytes
spell_all [] = []
spell_all (e ∷ es) = spell e ++ spell_all es

-- A tag of one byte, and a length of at most four.
abbrev pub IsPlain : Element → Type 0
IsPlain e = (e.tag % 32 < 31) × (length e.value < 4294967296)

-- The long form.
read_length-long :
    (k n : ℕ) (rest : Bytes)
    → 1 ≤ k
    → k ≤ 4
    → n < 256 ^ k
    → read_length ((128 + k) ∷ be k n ++ rest) ≡ ok (n, rest)
unfolding read_length
read_length-long k n rest h l fits =
    let count : (128 + k) % 128 ≡ k = omega arith in
    let short : ltb (128 + k) 128 ≡ false = ground arith in
    let none : (k == 0) ≡ false = ground arith in
    let few : ltb 4 k ≡ false = ground arith in
    let there : ltb (length (be k n ++ rest)) k ≡ false =
      le→ltb _ _ (omega (arith, length-append (be k n) rest, length-be k n)) in
    rw
      (
        short,
        count,
        none,
        few,
        there,
        take_front k (be k n) rest (length-be k n),
        drop_front k (be k n) rest (length-be k n),
      )
      (ap (λ (x : ℕ). ok (x, rest)) (omega (arith, of_be-be k n 0 fits)))

read_length-octets :
    (n : ℕ) (rest : Bytes) → n < 4294967296 → read_length (length_octets n ++ rest) ≡ ok (n, rest)
unfolding read_length
read_length-octets n rest h =
    let P = λ (bs : Bytes). read_length (bs ++ rest) ≡ ok (n, rest) in
    on_test P (ltb n 128) (λ e. rw e refl)
      (λ _.
        on_test P (ltb n 256)
          (λ e.
            read_length-long 1 n rest (omega arith) (omega arith) (omega (arith, ltb→lt n 256 e)))
          (λ _.
            on_test P (ltb n 65536)
              (λ e.
                read_length-long 2 n rest (omega arith) (omega arith)
                  (omega (arith, ltb→lt n 65536 e)))
              (λ _.
                on_test P (ltb n 16777216)
                  (λ e.
                    read_length-long 3 n rest (omega arith) (omega arith)
                      (omega (arith, ltb→lt n 16777216 e)))
                  (λ _. read_length-long 4 n rest (omega arith) (omega arith) (omega arith)))))

parse_element-spell :
    (e : Element) (rest : Bytes) → IsPlain e → parse_element (spell e ++ rest) ≡ ok (e, rest)
unfolding parse_element cut_value
parse_element-spell e rest (plain, fits) =
    let n = length e.value in
    let tag_fits : (e.tag % 32 == 31) ≡ false = ground arith in
    let there : ltb (length (e.value ++ rest)) n ≡ false =
      le→ltb _ _ (omega (arith, length-append e.value rest)) in
    rw
      (
        tag_fits,
        append_assoc (length_octets n) e.value rest,
        read_length-octets n (e.value ++ rest) fits,
        there,
        take-length e.value rest,
        drop-length e.value rest,
      )
      refl

parse_loop-spell_all :
    (fuel : ℕ) (es : List Element)
    → All IsPlain es
    → length (spell_all es) ≤ fuel
    → parse_loop fuel (spell_all es) ≡ ok es
unfolding parse_loop
parse_loop-spell_all fuel [] h k = refl
parse_loop-spell_all zero (e ∷ es) h k = absurd (omega arith)
parse_loop-spell_all (suc fuel) (e ∷ es) (h, hs) k =
    rw
      (
        parse_element-spell e (spell_all es) h,
        parse_loop-spell_all fuel es hs (
            omega
              (arith, length-append (length_octets (length e.value) ++ e.value) (spell_all es))),
      )
      refl

-- Every list of elements with one-byte tags and values below 2 ^ 32 bytes, spelled in DER, is read
-- back by `parse_all`.
pub parse_all-spell_all : (es : List Element) → All IsPlain es → parse_all (spell_all es) ≡ ok es
unfolding parse_all
parse_all-spell_all es h = parse_loop-spell_all (length (spell_all es)) es h (omega arith)
