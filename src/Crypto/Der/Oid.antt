-- ===== src/Crypto/Der/Oid.antt =====
-- Object identifiers in the form that `oid_string` of src/xrd/crypto/der.py reads.
use py_xroot_dclient.Base.{
  ℕ, Bytes, [], ◌∷◌, ◌+◌, ◌-◌, ◌*◌, ◌/◌, ◌%◌, refl, map, All, List, ◌≡◌, ◌≤◌, is_nil, ◌<◌, ltb,
  false, ◌∙◌, ◌⊎◌, true, ap, min, arith, lt→ltb,
}
use py_xroot_dclient.Crypto.Der.{read_arcs, oid_numbers, tag_oid}
use py_xroot_dclient.Errors.{Result, ok, ◌>>=◌}

-- A number by its digits to the base 128, the last one apart.
pub record Arc : Type 0 where
  pub high : List ℕ
  pub low : ℕ

abbrev pub IsArc : Arc → Type 0
IsArc a = All (λ (d : ℕ). d < 128) a.high × (a.low < 128)

abbrev value_from : ℕ → List ℕ → ℕ → ℕ
value_from v [] low = v * 128 + low
value_from v (d ∷ ds) low = value_from (v * 128 + d) ds low

abbrev pub arc_value : Arc → ℕ
arc_value a = value_from 0 a.high a.low

-- All bytes but the last have the highest bit.
abbrev spell_digits : List ℕ → ℕ → Bytes → Bytes
spell_digits [] low rest = low ∷ rest
spell_digits (d ∷ ds) low rest = (128 + d) ∷ spell_digits ds low rest

abbrev pub spell_arcs : List Arc → Bytes
spell_arcs [] = []
spell_arcs (a ∷ arcs) = spell_digits a.high a.low (spell_arcs arcs)

spell_digits-nonempty :
    (ds : List ℕ) (low : ℕ) (rest : Bytes) → is_nil (spell_digits ds low rest) ≡ false
spell_digits-nonempty [] low rest = refl
spell_digits-nonempty (d ∷ ds) low rest = refl

read_arcs-digits :
    (v : ℕ) (ds : List ℕ) (low : ℕ) (rest : Bytes)
    → All (λ (d : ℕ). d < 128) ds
    → low < 128
    → read_arcs v (spell_digits ds low rest)
      ≡ (read_arcs 0 rest >>= λ arcs. ok (value_from v ds low ∷ arcs))
unfolding read_arcs
read_arcs-digits v [] low rest h k =
    let last : ltb low 128 ≡ true = lt→ltb low 128 k in
    let same : low % 128 ≡ low = omega arith in rw (last, same) refl
read_arcs-digits v (d ∷ ds) low rest (h, hs) k =
    let further : ltb (128 + d) 128 ≡ false = ground arith in
    let same : (128 + d) % 128 ≡ d = omega arith in
    rw (further, spell_digits-nonempty ds low rest, same)
      (read_arcs-digits (v * 128 + d) ds low rest hs k)

read_arcs-spell_arcs :
    (arcs : List Arc) → All IsArc arcs → read_arcs 0 (spell_arcs arcs) ≡ ok (map arc_value arcs)
unfolding read_arcs
read_arcs-spell_arcs [] h = refl
read_arcs-spell_arcs (a ∷ arcs) ((h, k), hs) =
    read_arcs-digits 0 a.high a.low (spell_arcs arcs) h k
    ∙ ap (λ (r : Result (List ℕ)). r >>= λ later. ok (arc_value a ∷ later))
        (read_arcs-spell_arcs arcs hs)

-- An identifier whose first two numbers `x` and `y` share one byte below 128, as 40 x + y with `x` at
-- most 2 and `y` below 40 unless `x` is 2, and whose other numbers are spelled to the base 128, is
-- read as these numbers.
pub oid_numbers-spell_arcs :
    (x y : ℕ) (arcs : List Arc)
    → x ≤ 2
    → (y < 40) ⊎ (x ≡ 2)
    → 40 * x + y < 128
    → All IsArc arcs
    → oid_numbers (record { tag = tag_oid; value = (40 * x + y) ∷ spell_arcs arcs })
      ≡ ok (x ∷ y ∷ map arc_value arcs)
unfolding oid_numbers
oid_numbers-spell_arcs x y arcs h k l hs =
    let first : min ((40 * x + y) / 40) 2 ≡ x = ground arith in
    let second : 40 * x + y - 40 * x ≡ y = omega arith in
    rw (read_arcs-spell_arcs arcs hs, first, second) refl
