-- ===== src/Crypto/Crc32c/Pages/RoundTrip.antt =====
-- Pages that were packed, unpacked: src/xrd/crypto/crc32c.py.
use mathlib.Core.List.{append-nil}
use py_xroot_dclient.Base.{
  ℕ, Bytes, [], ◌∷◌, zero, suc, ◌+◌, refl, ◌++◌, length, ◌<◌, All, ◌^◌, ◌≤◌, ◌≡◌, IsByte, drop,
  take, ap, arith, sym, ◌∙◌, drop-drop, drop-length, ==_iff, ◌⊎◌, length-append, inl, length-drop,
  length-take, List, inr, take-append-drop, take_all, take_front, drop_front,
}
use py_xroot_dclient.Crypto.Crc32c.Pages.{
  page_size, first_page, pack_loop, pack_pages, unpack_loop, unpack_pages,
}
use py_xroot_dclient.Proto.Buffer.{be, of_be}
use py_xroot_dclient.Proto.Buffer.RoundTrip.{length-be, of_be-be}

All-take : (n : ℕ) (xs : Bytes) → All IsByte xs → All IsByte (take n xs)
All-take zero xs h = tt
All-take (suc n) [] h = tt
All-take (suc n) (x ∷ xs) (h, hs) = (h, All-take n xs hs)

All-drop : (n : ℕ) (xs : Bytes) → All IsByte xs → All IsByte (drop n xs)
All-drop zero xs h = h
All-drop (suc n) [] h = tt
All-drop (suc n) (x ∷ xs) (h, hs) = All-drop n xs hs

drop_short : (n : ℕ) (xs : Bytes) → length xs ≤ n → drop n xs ≡ []
drop_short zero [] h = refl
drop_short zero (x ∷ xs) h = absurd (omega arith)
drop_short (suc n) [] h = refl
drop_short (suc n) (x ∷ xs) h = drop_short n xs (omega arith)

long_or_short : (a b : ℕ) → (a ≤ b) ⊎ (b ≤ a)
long_or_short a b = ground arith

-- A page is as long as it may be, or nothing follows it.
take_page :
    (head : ℕ) (bs rest : Bytes)
    → (length bs ≤ head → rest ≡ [])
    → take head (take head bs ++ rest) ≡ take head bs
take_page head bs rest h = elim (long_or_short head (length bs)) [
  | inl long ↦ take_front head (take head bs) rest (omega (arith, length-take head bs))
  | inr short ↦ rw (h short) (
      ap (take head) (append-nil (take head bs))
      ∙ take_all head (take head bs) (omega (arith, length-take head bs)))
]

module _ (crc : Bytes → ℕ) where
  unpack_front :
      (fuel head at : ℕ) (page rest front : Bytes)
      → length front ≡ 4
      → of_be 0 front ≡ crc page
      → take head (page ++ rest) ≡ page
      → unpack_loop crc (suc fuel) head at (front ++ (page ++ rest)) ≡ (
        page ++ (unpack_loop crc fuel page_size (at + length page) rest).0,
        (unpack_loop crc fuel page_size (at + length page) rest).1,
      )
  unfolding unpack_loop
  unpack_front fuel head at page rest [] e v whole = absurd (omega (arith, e))
  unpack_front fuel head at page rest (b ∷ front) e v whole =
      let xs = page ++ rest in
      let behind : drop (4 + length page) (b ∷ front ++ xs) ≡ rest =
        sym (drop-drop (length page) 4 (b ∷ front ++ xs))
        ∙ ap (drop (length page)) (drop_front 4 (b ∷ front) xs e)
        ∙ drop-length page rest in
      rw
        (
          take_front 4 (b ∷ front) xs e,
          drop_front 4 (b ∷ front) xs e,
          whole,
          behind,
          v,
          (==_iff (crc page) (crc page)).1 refl,
        )
        refl

  -- Where the page stands behind its CRC, the loop takes both, and finds no fault.
  unpack_page :
      (fuel head at : ℕ) (page rest : Bytes)
      → crc page < 2 ^ 32
      → take head (page ++ rest) ≡ page
      → unpack_loop crc (suc fuel) head at (be 4 (crc page) ++ (page ++ rest)) ≡ (
        page ++ (unpack_loop crc fuel page_size (at + length page) rest).0,
        (unpack_loop crc fuel page_size (at + length page) rest).1,
      )
  unpack_page fuel head at page rest small whole =
      unpack_front fuel head at page rest (be 4 (crc page)) (length-be 4 (crc page))
        (omega (arith, of_be-be 4 (crc page) 0 small)) whole

  pack_nil : (fuel head : ℕ) → pack_loop crc fuel head [] ≡ []
  unfolding pack_loop
  pack_nil zero head = refl
  pack_nil (suc fuel) head = refl

  unpack_nil : (fuel head at : ℕ) → unpack_loop crc fuel head at [] ≡ ([], [])
  unfolding unpack_loop
  unpack_nil zero head at = refl
  unpack_nil (suc fuel) head at = refl

  module _ (fits : (page : Bytes) → All IsByte page → crc page < 2 ^ 32) where
    unpack_loop-pack_loop :
        (fuel more head at : ℕ) (bs : Bytes)
        → 1 ≤ head
        → All IsByte bs
        → length bs ≤ fuel
        → length (pack_loop crc fuel head bs) ≤ more
        → unpack_loop crc more head at (pack_loop crc fuel head bs) ≡ (bs, [])
    unfolding pack_loop
    unpack_loop-pack_loop zero more head at [] h bytes l k = unpack_nil more head at
    unpack_loop-pack_loop zero more head at (b ∷ bs) h bytes l k = absurd (omega arith)
    unpack_loop-pack_loop (suc fuel) more head at [] h bytes l k = unpack_nil more head at
    unpack_loop-pack_loop (suc fuel) zero head at (b ∷ bs) h bytes l k =
        let page = take head (b ∷ bs) in
        let rest = pack_loop crc fuel page_size (drop head (b ∷ bs)) in
        absurd
          (omega (arith, length-append (be 4 (crc page)) (page ++ rest), length-be 4 (crc page)))
    unpack_loop-pack_loop (suc fuel) (suc more) head at (b ∷ bs) h bytes l k =
        let page = take head (b ∷ bs) in
        let tail = drop head (b ∷ bs) in
        let rest = pack_loop crc fuel page_size tail in
        let whole = take_page head (b ∷ bs) rest (λ short.
          ap (pack_loop crc fuel page_size) (drop_short head (b ∷ bs) short)
          ∙ pack_nil fuel page_size) in
        let later =
          unpack_loop-pack_loop fuel more page_size (at + length page) tail (omega arith)
            (All-drop head (b ∷ bs) bytes) (omega (arith, length-drop head (b ∷ bs)))
            (omega (
              arith,
              length-append (be 4 (crc page)) (page ++ rest),
              length-append page rest,
              length-be 4 (crc page),
            )) in
        unpack_page more head at page rest (fits page (All-take head (b ∷ bs) bytes)) whole
        ∙ ap (λ (r : Bytes × List ℕ). (page ++ r.0, r.1)) later
        ∙ ap (λ (xs : Bytes). (xs, [])) (take-append-drop head (b ∷ bs))

    first_page-positive : (offset : ℕ) → 1 ≤ first_page offset
    unfolding first_page
    first_page-positive offset = ground arith

    -- What was packed for an offset is unpacked for that offset, with no page at fault, if the CRC of
    -- bytes fits in four bytes.
    pub unpack_pages-pack_pages :
        (bs : Bytes) (offset : ℕ)
        → All IsByte bs
        → unpack_pages crc (pack_pages crc bs offset) offset ≡ (bs, [])
    unfolding unpack_pages pack_pages
    unpack_pages-pack_pages bs offset bytes =
        unpack_loop-pack_loop (length bs) _ (first_page offset) offset bs
          (first_page-positive offset) bytes (omega arith) (omega arith)
