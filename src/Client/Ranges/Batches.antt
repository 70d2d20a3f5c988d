-- ===== src/Client/Ranges/Batches.antt =====
-- What the batches of vector reads and writes of src/xrd/client/file.py hold.
use py_xroot_dclient.Base.{
  ℕ, [], ◌∷◌, ◌+◌, ◌++◌, Bool, true, false, Option, none, List, length, ◌==◌, ltb, ◌≡◌, refl, ◌≤◌,
  ◌⊎◌, inl, inr, All, arith, ap, ◌∙◌, length-append, Bool-cases,
}
use py_xroot_dclient.Client.Ranges.{
  ReadRange, WriteChunk, batch_loop, batches, write_batches, full, readv_max_bytes,
  readv_max_chunks,
}
use py_xroot_dclient.Base.Cases.{on_test}
use py_xroot_dclient.Errors.{Error}
use mathlib.Core.List.{append_assoc}

module _ {A : Type 0} where
  abbrev pub joined : List (List A) → List A
  joined [] = []
  joined (b ∷ bs) = b ++ joined bs

module _ {A : Type 0} (size : A → ℕ) where
  abbrev pub sum_of : List A → ℕ
  sum_of [] = 0
  sum_of (x ∷ xs) = size x + sum_of xs

  sum_of-append : (xs ys : List A) → sum_of (xs ++ ys) ≡ sum_of xs + sum_of ys
  sum_of-append [] ys = omega arith
  sum_of-append (x ∷ xs) ys = omega (arith, sum_of-append xs ys)

  -- A request that a server takes: not empty, not too many elements, and not too many bytes unless
  -- it is a single element.
  pub record IsBatch (b : List A) : Type 0 where
    pub some_element : 1 ≤ length b
    pub few : length b ≤ readv_max_chunks
    pub small : (sum_of b ≤ readv_max_bytes) ⊎ (length b ≡ 1)

  abbrev Filling : List A → ℕ → Type 0
  Filling b total = (sum_of b ≡ total) × ((length b ≡ 0) ⊎ IsBatch b)

  Filling-one : (x : A) → Filling (x ∷ []) (size x)
  Filling-one x = (
    omega arith,
    inr (record { some_element = omega arith; few = omega arith; small = inr (refl) }),
  )

  -- Where the batch at hand is not full, one element more still makes a batch.
  Filling-add :
      (b : List A) (total : ℕ) (x : A)
      → full (length b) total (size x) ≡ false
      → Filling b total
      → Filling (b ++ (x ∷ [])) (total + size x)
  Filling-add b total x room (e, start) =
      let n : length (b ++ (x ∷ [])) ≡ length b + 1 = length-append b (x ∷ []) in
      let s : sum_of (b ++ (x ∷ [])) ≡ sum_of b + (size x + 0) = sum_of-append b (x ∷ []) in
      (
        omega arith,
        inr (record {
          some_element = omega arith;
          few = elim (Bool-cases (length b == 0)) [ inl z ↦ ground arith | inr z ↦ ground arith ];
          small = elim (Bool-cases (length b == 0)) [
            | inl z ↦ inr (ground arith)
            | inr z ↦ inl (ground arith)
          ];
        }),
      )

  abbrev Splits : List A → List (List A) × Option Error → Type 0
  Splits whole out = (out.1 ≡ none) × (joined out.0 ≡ whole) × All IsBatch out.0

  full-IsBatch :
      (b : List A) (total : ℕ) (x : A)
      → full (length b) total (size x) ≡ true
      → Filling b total
      → IsBatch b
  full-IsBatch b total x no_room (e, inl n) = absurd (ground arith)
  full-IsBatch b total x no_room (e, inr good) = good

  batch_loop-Splits :
      (refuse : A → Bool) (b : List A) (total : ℕ) (xs : List A)
      → All (λ x. refuse x ≡ false) xs
      → Filling b total
      → Splits (b ++ xs) (batch_loop size refuse b total xs)
  unfolding batch_loop
  batch_loop-Splits refuse [] total [] none_refused f = (refl, refl, tt)
  batch_loop-Splits refuse (y ∷ ys) total [] none_refused (e, inl n) = absurd (omega arith)
  batch_loop-Splits refuse (y ∷ ys) total [] none_refused (e, inr good) = (refl, refl, (good, tt))
  batch_loop-Splits refuse b total (x ∷ xs) (fine, later) f =
      on_test (Splits (b ++ (x ∷ xs))) (refuse x) (λ refused. absurd (cc))
        (λ _.
          on_test (Splits (b ++ (x ∷ xs))) (full (length b) total (size x))
            (λ no_room.
              let rest : Splits (x ∷ xs) (batch_loop size refuse (x ∷ []) (size x) xs) =
                batch_loop-Splits refuse (x ∷ []) (size x) xs later (Filling-one x) in
              (
                rest.0,
                ap (λ (ys : List A). b ++ ys) rest.1,
                (full-IsBatch b total x no_room f, rest.2),
              ))
            (λ room.
              let rest : Splits ((b ++ (x ∷ [])) ++ xs)
                  (batch_loop size refuse (b ++ (x ∷ [])) (total + size x) xs) =
                batch_loop-Splits refuse (b ++ (x ∷ [])) (total + size x) xs later
                  (Filling-add b total x room f) in
              (rest.0, rest.1 ∙ append_assoc b (x ∷ []) xs, rest.2)))

  room_left :
      (b : List A) (total : ℕ) (x : A)
      → full (length b) total (size x) ≡ false
      → sum_of b ≡ total
      → size x ≤ readv_max_bytes
      → total + size x ≤ readv_max_bytes
  room_left [] total x room e small = omega arith
  room_left (y ∷ ys) total x room e small = ground arith

  batch_loop-fits :
      (refuse : A → Bool) (b : List A) (total : ℕ) (xs : List A)
      → ((x : A) → refuse x ≡ false → size x ≤ readv_max_bytes)
      → (sum_of b ≡ total) × (total ≤ readv_max_bytes)
      → All (λ b. sum_of b ≤ readv_max_bytes) (batch_loop size refuse b total xs).0
  unfolding batch_loop
  batch_loop-fits refuse [] total [] fits e = tt
  batch_loop-fits refuse (y ∷ ys) total [] fits e = (omega arith, tt)
  batch_loop-fits refuse b total (x ∷ xs) fits (e, small) =
      let P : List (List A) × Option Error → Type 0 =
        λ out. All (λ b. sum_of b ≤ readv_max_bytes) out.0 in
      on_test P (refuse x) (λ refused. tt)
        (λ fine.
          on_test P (full (length b) total (size x))
            (λ no_room. (
              omega arith,
              batch_loop-fits refuse (x ∷ []) (size x) xs fits (omega arith, fits x fine),
            ))
            (λ room. batch_loop-fits refuse (b ++ (x ∷ [])) (total + size x) xs fits (
              let s : sum_of (b ++ (x ∷ [])) ≡ sum_of b + (size x + 0) = sum_of-append b (x ∷ []) in
              (omega arith, room_left b total x room e (fits x fine)))))

fine_ranges :
    (rs : List ReadRange)
    → All (λ r. r.length ≤ readv_max_bytes) rs
    → All (λ r. ltb readv_max_bytes r.length ≡ false) rs
fine_ranges [] h = tt
fine_ranges (r ∷ rs) (h, later) = (ground (arith, h), fine_ranges rs later)

-- Where no range is longer than 2 MiB, the batches of a vector read are the ranges in their order,
-- none is refused, and each batch has between 1 and 1024 ranges and at most 2 MiB in all.
pub batches_lem :
    (rs : List ReadRange)
    → All (λ r. r.length ≤ readv_max_bytes) rs
    → ((batches rs).1 ≡ none)
      × (joined (batches rs).0 ≡ rs)
      × All (λ b. (1 ≤ length b) × (length b ≤ 1024)) (batches rs).0
      × All (λ b. sum_of (λ r. r.length) b ≤ 2097152) (batches rs).0
unfolding batches
batches_lem rs small =
    let split : Splits (λ r. r.length) rs (batches rs) =
      batch_loop-Splits (λ r. r.length) (λ r. ltb readv_max_bytes r.length) [] 0 rs
        (fine_ranges rs small) (refl, inl refl) in
    (
      split.0,
      split.1,
      counts (batches rs).0 split.2,
      batch_loop-fits (λ r. r.length) (λ r. ltb readv_max_bytes r.length) [] 0 rs
          (λ r fine. ground arith) (refl, omega arith),
    )
  where
    counts :
        (bs : List (List ReadRange))
        → All (IsBatch (λ r. r.length)) bs
        → All (λ b. (1 ≤ length b) × (length b ≤ 1024)) bs
    counts [] h = tt
    counts (b ∷ bs) (h, later) = ((h.some_element, h.few), counts bs later)

never_refused : (cs : List WriteChunk) → All (λ c. ◌≡◌ {A = Bool} false false) cs
never_refused [] = tt
never_refused (c ∷ cs) = (refl, never_refused cs)

-- The batches of a vector write are the chunks in their order, and each has between 1 and 1024
-- chunks, and at most 2 MiB in all unless it is a single chunk.
pub write_batches_lem :
    (cs : List WriteChunk)
    → (joined (write_batches cs) ≡ cs) × All (IsBatch (λ c. length c.body)) (write_batches cs)
unfolding write_batches
write_batches_lem cs =
    let split : Splits (λ c. length c.body) cs
        (batch_loop (λ c. length c.body) (λ c. false) [] 0 cs) =
      batch_loop-Splits (λ c. length c.body) (λ c. false) [] 0 cs (never_refused cs)
        (refl, inl refl) in
    (split.1, split.2)
