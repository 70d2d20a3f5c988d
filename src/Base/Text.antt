-- ===== src/Base/Text.antt =====
-- The bytes of an ASCII text, and more tests on byte strings.
use py_xroot_dclient.Base.{
  Bytes, List, bytes_eq, [], ◌≡◌, Bool, ◌∷◌, true, false, ◌||◌, ◌↔◌, arith, refl,
}
use Prim.Native.Char.{code}
use Prim.Native.String.{String}

-- `String` has its own `[]` and `∷`.
abbrev pub codes : String → Bytes
codes String.[] = []
codes (String.◌∷◌ c s) = code c ∷ codes s

pub bytes_eq_iff : (xs ys : Bytes) → (bytes_eq xs ys ≡ true) ↔ (xs ≡ ys)
bytes_eq_iff [] [] = (λ h. refl, λ h. refl)
bytes_eq_iff [] (y ∷ ys) = (λ h. cc, λ h. cc)
bytes_eq_iff (x ∷ xs) [] = (λ h. cc, λ h. cc)
bytes_eq_iff (x ∷ xs) (y ∷ ys) =
    (λ h. ground (arith, bytes_eq_iff xs ys), λ h. ground (arith, bytes_eq_iff xs ys))

-- `x in xs`
abbrev pub member : Bytes → List Bytes → Bool
member b [] = false
member b (x ∷ xs) = bytes_eq b x || member b xs
