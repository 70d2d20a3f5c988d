-- ===== src/Client/Ranges/Packed.antt =====
-- How long the pages that src/xrd/crypto/crc32c.py packs are, against `_packed_length` of
-- src/xrd/client/file.py.
use py_xroot_dclient.Base.{
  ℕ, Bytes, [], ◌∷◌, zero, suc, ◌+◌, ◌-◌, ◌*◌, ◌/◌, ◌++◌, take, drop, length, ◌≡◌, refl, arith, ◌≤◌,
  ◌==◌, length-append, length-take, length-drop, min, if◌then◌else◌,
}
use py_xroot_dclient.Proto.Buffer.{be}
use py_xroot_dclient.Proto.Buffer.RoundTrip.{length-be}
use py_xroot_dclient.Crypto.Crc32c.Pages.{pack_loop, pack_pages, first_page, page_size}
use py_xroot_dclient.Client.Ranges.{packed_length}

module _ (crc : Bytes → ℕ) where
  -- A page takes four bytes more.
  length-pack_loop :
      (fuel head : ℕ) (bs : Bytes)
      → length bs ≤ fuel
      → 1 ≤ head
      → head ≤ page_size
      → length (pack_loop crc fuel head bs)
        ≡ (if length bs == 0 then 0 else length bs + 4 * (1 + ((length bs - head) + 4095) / 4096))
  unfolding pack_loop
  length-pack_loop zero head [] le one small = refl
  length-pack_loop zero head (b ∷ bs) le one small = absurd (omega arith)
  length-pack_loop (suc fuel) head [] le one small = refl
  length-pack_loop (suc fuel) head (b ∷ bs) le one small =
      let page = take head (b ∷ bs) in
      let later = pack_loop crc fuel page_size (drop head (b ∷ bs)) in
      let n : length (drop head (b ∷ bs)) ≡ suc (length bs) - head = length-drop head (b ∷ bs) in
      let p : length page ≡ min head (suc (length bs)) = length-take head (b ∷ bs) in
      let whole : length (be 4 (crc page) ++ (page ++ later)) ≡ 4 + (length page + length later) =
        omega (
          arith,
          length-append (be 4 (crc page)) (page ++ later),
          length-append page later,
          length-be 4 (crc page),
        ) in
      ground (
        arith,
        length-pack_loop fuel page_size (drop head (b ∷ bs)) (omega arith) (omega arith)
            (omega arith),
      )

first_page_bounds : (offset : ℕ) → (1 ≤ first_page offset) × (first_page offset ≤ 4096)
unfolding first_page
first_page_bounds offset = (ground arith, ground arith)

-- The pages of any bytes at any offset, with their checksums, are exactly as long as a paged read
-- of so many bytes there allows.
pub packed_length-pack_pages :
    (crc : Bytes → ℕ) (bs : Bytes) (offset : ℕ)
    → packed_length (length bs) offset ≡ length (pack_pages crc bs offset)
unfolding packed_length pack_pages first_page
packed_length-pack_pages crc bs offset =
    let b = first_page_bounds offset in
    ground (arith, length-pack_loop crc (length bs) (first_page offset) bs (omega arith) b.0 b.1)
