-- ===== src/Copy/Parallel/Agreement.antt =====
-- The bytes of a target into which the bytes of its source are written at their own places.
use py_xroot_dclient.Base.{
  ℕ, Bytes, [], ◌∷◌, zero, suc, ◌+◌, ◌≡◌, ◌≤◌, ◌<◌, length, take, refl, arith, Option, none, some,
}
use py_xroot_dclient.Client.Server.{splice, slice, overlay}

abbrev pub byte_at : Bytes → ℕ → Option ℕ
byte_at [] k = none
byte_at (b ∷ bs) zero = some b
byte_at (b ∷ bs) (suc k) = byte_at bs k

overlay_there :
    (n k : ℕ) (source c : Bytes)
    → n ≤ length source
    → k < n
    → byte_at (overlay (take n source) c) k ≡ byte_at source k
unfolding overlay
overlay_there zero k source c fits lt = absurd (omega arith)
overlay_there (suc n) k [] c fits lt = absurd (omega arith)
overlay_there (suc n) zero (b ∷ source) [] fits lt = refl
overlay_there (suc n) zero (b ∷ source) (x ∷ c) fits lt = refl
overlay_there (suc n) (suc k) (b ∷ source) [] fits lt =
    overlay_there n k source [] (omega arith) (omega arith)
overlay_there (suc n) (suc k) (b ∷ source) (x ∷ c) fits lt =
    overlay_there n k source c (omega arith) (omega arith)

-- What was written is there.
pub splice_there :
    (o n k : ℕ) (source c : Bytes)
    → o + n ≤ length source
    → o ≤ k
    → k < o + n
    → byte_at (splice o (slice o n source) c) k ≡ byte_at source k
unfolding splice
splice_there zero n k source c fits le lt = overlay_there n k source c (omega arith) (omega arith)
splice_there (suc o) n k [] c fits le lt = absurd (omega arith)
splice_there (suc o) n zero (b ∷ source) c fits le lt = absurd (omega arith)
splice_there (suc o) n (suc k) (b ∷ source) [] fits le lt =
    splice_there o n k source [] (omega arith) (omega arith) (omega arith)
splice_there (suc o) n (suc k) (b ∷ source) (x ∷ c) fits le lt =
    splice_there o n k source c (omega arith) (omega arith) (omega arith)

overlay_kept :
    (n k : ℕ) (source c : Bytes)
    → n ≤ length source
    → k < length source
    → byte_at c k ≡ byte_at source k
    → byte_at (overlay (take n source) c) k ≡ byte_at source k
unfolding overlay
overlay_kept zero k source c fits lt e = e
overlay_kept (suc n) k [] c fits lt e = absurd (omega arith)
overlay_kept (suc n) zero (b ∷ source) [] fits lt e = refl
overlay_kept (suc n) zero (b ∷ source) (x ∷ c) fits lt e = refl
overlay_kept (suc n) (suc k) (b ∷ source) [] fits lt e =
    overlay_kept n k source [] (omega arith) (omega arith) e
overlay_kept (suc n) (suc k) (b ∷ source) (x ∷ c) fits lt e =
    overlay_kept n k source c (omega arith) (omega arith) e

-- What agreed with the source still does.
pub splice_kept :
    (o n k : ℕ) (source c : Bytes)
    → o + n ≤ length source
    → k < length source
    → byte_at c k ≡ byte_at source k
    → byte_at (splice o (slice o n source) c) k ≡ byte_at source k
unfolding splice
splice_kept zero n k source c fits lt e = overlay_kept n k source c (omega arith) lt e
splice_kept (suc o) n k [] c fits lt e = absurd (omega arith)
splice_kept (suc o) n zero (b ∷ source) [] fits lt e = absurd (cc)
splice_kept (suc o) n zero (b ∷ source) (x ∷ c) fits lt e = e
splice_kept (suc o) n (suc k) (b ∷ source) [] fits lt e =
    splice_kept o n k source [] (omega arith) (omega arith) e
splice_kept (suc o) n (suc k) (b ∷ source) (x ∷ c) fits lt e =
    splice_kept o n k source c (omega arith) (omega arith) e

length-overlay :
    (n : ℕ) (source c : Bytes)
    → length c ≤ length source
    → length (overlay (take n source) c) ≤ length source
unfolding overlay
length-overlay zero source c le = le
length-overlay (suc n) [] c le = le
length-overlay (suc n) (b ∷ source) [] le = omega (arith, length-overlay n source [] (omega arith))
length-overlay (suc n) (b ∷ source) (x ∷ c) le =
    omega (arith, length-overlay n source c (omega arith))

-- The target grows no longer than the source.
pub length-splice :
    (o n : ℕ) (source c : Bytes)
    → o + n ≤ length source
    → length c ≤ length source
    → length (splice o (slice o n source) c) ≤ length source
unfolding splice
length-splice zero n source c fits le = length-overlay n source c le
length-splice (suc o) n [] c fits le = absurd (omega arith)
length-splice (suc o) n (b ∷ source) [] fits le =
    omega (arith, length-splice o n source [] (omega arith) (omega arith))
length-splice (suc o) n (b ∷ source) (x ∷ c) fits le =
    omega (arith, length-splice o n source c (omega arith) (omega arith))

pub bytes_ext :
    (c source : Bytes)
    → length c ≤ length source
    → ((k : ℕ) → k < length source → byte_at c k ≡ byte_at source k)
    → c ≡ source
bytes_ext [] [] le same = refl
bytes_ext [] (b ∷ source) le same = let e = same 0 (omega arith) in absurd (cc)
bytes_ext (x ∷ c) [] le same = absurd (omega arith)
bytes_ext (x ∷ c) (b ∷ source) le same =
    let e = same 0 (omega arith) in
    let rest = bytes_ext c source (omega arith) (λ k lt. same (suc k) (omega arith)) in cc
