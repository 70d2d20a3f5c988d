-- ===== src/Client/Server/Slices.antt =====
-- Slices of the contents of a file, and bytes written over them.
use py_xroot_dclient.Base.{
  ℕ, Bytes, [], ◌∷◌, zero, suc, ◌+◌, ◌-◌, ◌++◌, take, drop, length, ◌≡◌, refl, sym, ap, ◌∙◌, arith,
  ◌≤◌, ◌<◌, drop-drop,
}
use py_xroot_dclient.Client.Server.{overlay, splice, slice}

take-nil : (n : ℕ) → take {A = ℕ} n [] ≡ []
take-nil zero = refl
take-nil (suc n) = refl

take_rest : (n k : ℕ) (xs : Bytes) → take n xs ++ take k (drop n xs) ≡ take (n + k) xs
take_rest zero k xs = ap (λ (j : ℕ). take j xs) (omega arith)
take_rest (suc n) zero [] = sym (take-nil (suc n + 0))
take_rest (suc n) (suc k) [] = sym (take-nil (suc n + suc k))
take_rest (suc n) k (x ∷ xs) =
    ap (◌∷◌ x) (take_rest n k xs) ∙ ap (λ (j : ℕ). take j (x ∷ xs)) (shift n k)
  where
    shift : (n k : ℕ) → suc (n + k) ≡ suc n + k
    shift n k = omega arith

take_short : (n k : ℕ) (xs : Bytes) → length (take n xs) < n → n ≤ k → take n xs ≡ take k xs
take_short zero k xs h le = absurd (omega arith)
take_short (suc n) zero xs h le = absurd (omega arith)
take_short (suc n) (suc k) [] h le = refl
take_short (suc n) (suc k) (x ∷ xs) h le =
    ap (◌∷◌ x) (take_short n k xs (omega arith) (omega arith))

-- A slice that came out short is at the end of the file.
pub slice_short :
    (o n k : ℕ) (c : Bytes) → length (slice o n c) < n → n ≤ k → slice o n c ≡ slice o k c
slice_short o n k c = take_short n k (drop o c)

-- A slice is a shorter one and the rest.
pub slice_split :
    (o n k : ℕ) (c : Bytes) → n ≤ k → slice o n c ++ slice (o + n) (k - n) c ≡ slice o k c
slice_split o n k c le =
    ap (λ (xs : Bytes). slice o n c ++ take (k - n) xs) (sym (drop-drop n o c))
    ∙ take_rest n (k - n) (drop o c)
    ∙ ap (λ (j : ℕ). take j (drop o c)) (omega arith)

overlay-append : (a b c : Bytes) → splice (length a) b (overlay a c) ≡ overlay (a ++ b) c
unfolding overlay splice
overlay-append [] b c = refl
overlay-append (x ∷ a) b [] = ap (◌∷◌ x) (overlay-append a b [])
overlay-append (x ∷ a) b (y ∷ c) = ap (◌∷◌ x) (overlay-append a b c)

-- Two writes, one behind the other, are one write.
pub splice-append :
    (o : ℕ) (a b c : Bytes) → splice (o + length a) b (splice o a c) ≡ splice o (a ++ b) c
unfolding splice
splice-append zero a b c =
    ap (λ (j : ℕ). splice j b (overlay a c)) (omega arith) ∙ overlay-append a b c
splice-append (suc o) a b [] =
    ap (λ (j : ℕ). splice j b (0 ∷ splice o a [])) (shift o (length a))
    ∙ ap (◌∷◌ 0) (splice-append o a b [])
  where
    shift : (n k : ℕ) → suc n + k ≡ suc (n + k)
    shift n k = omega arith
splice-append (suc o) a b (y ∷ c) =
    ap (λ (j : ℕ). splice j b (y ∷ splice o a c)) (shift o (length a))
    ∙ ap (◌∷◌ y) (splice-append o a b c)
  where
    shift : (n k : ℕ) → suc n + k ≡ suc (n + k)
    shift n k = omega arith

overlay-front : (b c : Bytes) → take (length b) (overlay b c) ≡ b
unfolding overlay
overlay-front [] c = refl
overlay-front (x ∷ b) [] = ap (◌∷◌ x) (overlay-front b [])
overlay-front (x ∷ b) (y ∷ c) = ap (◌∷◌ x) (overlay-front b c)

-- What was written is what is read there.
pub slice-splice : (o : ℕ) (b c : Bytes) → slice o (length b) (splice o b c) ≡ b
unfolding splice
slice-splice zero b c = overlay-front b c
slice-splice (suc o) b [] = slice-splice o b []
slice-splice (suc o) b (y ∷ c) = slice-splice o b c
