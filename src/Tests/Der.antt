-- ===== src/Tests/Der.antt =====
-- A sequence that is read, a number and the identifier of RSA encryption.
use py_xroot_dclient.Proto.Buffer.{of_be, to_signed}
use py_xroot_dclient.Base.{[], ◌∷◌, ◌+◌, refl, inl, List, ◌≡◌, ◌*◌, arith}
use py_xroot_dclient.Base.Int.{negsuc}
use py_xroot_dclient.Crypto.Der.{
  Element, parse_all, parse_loop, parse_element, read_length, cut_value, oid_numbers, read_arcs,
  tag_oid, read_integer,
}
use py_xroot_dclient.Crypto.Der.Parts.{parse_all-IsSpelled, IsSpelled}
use py_xroot_dclient.Crypto.Der.RoundTrip.{parse_all-spell_all, spell_all}
use py_xroot_dclient.Crypto.Der.Oid.{oid_numbers-spell_arcs, Arc, spell_arcs}
use py_xroot_dclient.Errors.{ok}

abbrev minus_two : Element
minus_two = record { tag = 2; value = 254 ∷ [] }

abbrev two_bytes : Element
two_bytes = record { tag = 4; value = 7 ∷ 8 ∷ [] }

read_integer_run : read_integer minus_two ≡ ok (negsuc 1)
unfolding read_integer to_signed of_be
read_integer_run = refl

-- A length of 5 in the long form is accepted too.
long_length_run : read_length (129 ∷ 5 ∷ 9 ∷ []) ≡ ok (5, 9 ∷ [])
unfolding read_length of_be
long_length_run = refl

-- The arc 2.999 is the bytes 0x88 and 0x37, and is read as 2.56.55.
large_arc_run : oid_numbers (record { tag = 6; value = 136 ∷ 55 ∷ [] }) ≡ ok (2 ∷ 56 ∷ 55 ∷ [])
unfolding oid_numbers read_arcs
large_arc_run = refl

parse_all-IsSpelled_example : IsSpelled (two_bytes ∷ []) (4 ∷ 2 ∷ 7 ∷ 8 ∷ [])
unfolding parse_all parse_loop parse_element read_length cut_value
parse_all-IsSpelled_example = parse_all-IsSpelled (4 ∷ 2 ∷ 7 ∷ 8 ∷ []) (two_bytes ∷ []) refl

parse_all-spell_all_example :
    parse_all (spell_all (minus_two ∷ two_bytes ∷ [])) ≡ ok (minus_two ∷ two_bytes ∷ [])
parse_all-spell_all_example =
    parse_all-spell_all (minus_two ∷ two_bytes ∷ [])
      ((omega arith, omega arith), ((omega arith, omega arith), tt))

-- 1.2.840, whose last number takes two bytes.
abbrev rsadsi : List Arc
rsadsi = record { high = 6 ∷ []; low = 72 } ∷ []

oid_numbers-spell_arcs_example :
    oid_numbers (record { tag = tag_oid; value = (40 * 1 + 2) ∷ spell_arcs rsadsi })
    ≡ ok (1 ∷ 2 ∷ 840 ∷ [])
oid_numbers-spell_arcs_example =
    oid_numbers-spell_arcs 1 2 rsadsi (omega arith) (inl (omega arith)) (omega arith)
      (((omega arith, tt), omega arith), tt)
