-- ===== src/Copy/Plan/Spans.antt =====
-- The spans of src/xrd/copy/engine.py tile the file.
use py_xroot_dclient.Base.{
  ℕ, [], ◌∷◌, zero, suc, ◌+◌, ◌-◌, ◌*◌, ◌/◌, List, length, ◌≡◌, refl, ◌≤◌, ◌<◌, min, arith, sym, ap,
  ◌∙◌, ltb, ◌%◌, subst,
}
use py_xroot_dclient.Base.Cases.{on_test}
use native.Mathlib.Nat.{mul-zero, mul-suc, zero-mul, mul_comm, div-add-mod, mod-lt, zero-lt-suc}
use native.Mathlib.Decide.{dec_le}
use py_xroot_dclient.Copy.Plan.{spans, spans_from}

-- Spans that lie behind one another, from an offset to the end, none of them empty.
abbrev pub Tiles : ℕ → ℕ → List (ℕ × ℕ) → Type 0
Tiles at size [] = at ≡ size
Tiles at size ((offset, len) ∷ rest) = (offset ≡ at) × (1 ≤ len) × Tiles (at + len) size rest

Tiles-empty : (size offset : ℕ) → size ≤ offset → offset ≤ size → Tiles offset size []
Tiles-empty size offset ge le = omega arith

spans_from-end : (fuel size step offset : ℕ) → size ≤ offset → spans_from fuel size step offset ≡ []
unfolding spans_from
spans_from-end zero size step offset le = refl
spans_from-end (suc fuel) size step offset le =
    on_test (λ (l : List (ℕ × ℕ)). l ≡ []) (ltb offset size) (λ more. absurd (ground arith))
      (λ last. refl)

spans_from-Tiles :
    (fuel size step offset : ℕ)
    → size - offset ≤ fuel
    → 1 ≤ step
    → offset ≤ size
    → Tiles offset size (spans_from fuel size step offset)
unfolding spans_from
spans_from-Tiles zero size step offset enough one le = omega arith
spans_from-Tiles (suc fuel) size step offset enough one le =
    on_test (Tiles offset size) (ltb offset size)
      (λ more. (
        refl,
        ground arith,
        elim (dec_le (size - offset) step) [
          | yes last ↦
              subst (Tiles (offset + min step (size - offset)) size)
                (sym (spans_from-end fuel size step (offset + step) (ground arith))) (omega arith)
          | no inner ↦
              subst (λ (k : ℕ). Tiles k size (spans_from fuel size step (offset + step)))
                (omega arith)
                (spans_from-Tiles fuel size step (offset + step) (ground arith) one (omega arith))
        ],
      ))
      (λ last. ground arith)

length-spans_from :
    (fuel size step offset workers : ℕ)
    → size ≤ offset + step * workers
    → length (spans_from fuel size step offset) ≤ workers
unfolding spans_from
length-spans_from zero size step offset workers covers = omega arith
length-spans_from (suc fuel) size step offset zero covers =
    on_test (λ (l : List (ℕ × ℕ)). length l ≤ 0) (ltb offset size)
      (λ more. absurd (ground (arith, mul-zero step))) (λ last. omega arith)
length-spans_from (suc fuel) size step offset (suc workers) covers =
    on_test (λ (l : List (ℕ × ℕ)). length l ≤ suc workers) (ltb offset size)
      (λ more. omega (
        arith,
        length-spans_from fuel size step (offset + step) workers
            (omega (arith, mul-suc step workers)),
      ))
      (λ last. omega arith)

-- A size divided among workers, rounded up, is enough for it.
divided : (size w : ℕ) → size ≤ (size + w) / suc w * suc w
divided size w =
    let a = size + w in
    let q : ℕ = a / suc w in
    let m : ℕ = a % suc w in
    let e : q * suc w + m ≡ a =
      ap (λ (k : ℕ). k + a % suc w) (mul_comm (a / suc w) (suc w)) ∙ div-add-mod a (suc w) in
    let lt : m < suc w = mod-lt a (zero-lt-suc w) in omega arith

positive : (step w size : ℕ) → 1 ≤ size → size ≤ step * w → 1 ≤ step
positive zero w size some_bytes up = absurd (omega (arith, zero-mul w))
positive (suc step) w size some_bytes up = omega arith

-- A file that is divided among some workers: the spans lie behind one another from its start to its
-- end, none is empty, and there are at most as many as workers.
pub spans-Tiles :
    (size workers : ℕ)
    → 1 ≤ size
    → 1 ≤ workers
    → Tiles 0 size (spans size workers) × (length (spans size workers) ≤ workers)
unfolding spans
spans-Tiles size zero some_bytes some_workers = absurd (omega arith)
spans-Tiles size (suc w) some_bytes some_workers =
    let step : ℕ = (size + (suc w - 1)) / suc w in
    let up : size ≤ step * suc w =
      subst (λ (k : ℕ). size ≤ (size + k) / suc w * suc w) (omega arith) (divided size w) in
    (
      spans_from-Tiles size size step 0 (omega arith) (positive step (suc w) size some_bytes up)
          (omega arith),
      length-spans_from size size step 0 (suc w) (omega arith),
    )
