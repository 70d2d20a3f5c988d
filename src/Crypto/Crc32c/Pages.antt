-- ===== src/Crypto/Crc32c/Pages.antt =====
-- `pack_pages` and `unpack_pages` of src/xrd/crypto/crc32c.py. The CRC of a page is a parameter: the
-- code takes google-crc32c's, where it is installed, or its own.
pub mod RoundTrip
use py_xroot_dclient.Base.{
  ℕ, Bytes, [], ◌∷◌, zero, suc, ◌+◌, ◌-◌, ◌*◌, ◌/◌, ◌%◌, refl, ◌++◌, if◌then◌else◌, take, List,
  length, ◌==◌, drop,
}
use py_xroot_dclient.Proto.Buffer.{be, of_be}

abbrev pub page_size : ℕ
page_size = 4096

-- `PAGE_SIZE - offset % PAGE_SIZE if offset % PAGE_SIZE else PAGE_SIZE`
unfoldable pub first_page : ℕ → ℕ
first_page offset = if offset % page_size == 0 then page_size else page_size - offset % page_size

module _ (crc : Bytes → ℕ) where
  -- The loop of `pack_pages`; a page takes at least one byte, and one unit of fuel.
  unfoldable pub pack_loop : ℕ → ℕ → Bytes → Bytes
  pack_loop zero head bs = []
  pack_loop (suc fuel) head [] = []
  pack_loop (suc fuel) head (b ∷ bs) =
      let page = take head (b ∷ bs) in
      be 4 (crc page) ++ (page ++ pack_loop fuel page_size (drop head (b ∷ bs)))

  unfoldable pub pack_pages : Bytes → ℕ → Bytes
  pack_pages bs offset = pack_loop (length bs) (first_page offset) bs

  -- The payload, and the offsets of the pages that failed.
  unfoldable pub unpack_loop : ℕ → ℕ → ℕ → Bytes → Bytes × List ℕ
  unpack_loop zero head at bs = ([], [])
  unpack_loop (suc fuel) head at [] = ([], [])
  unpack_loop (suc fuel) head at (b ∷ bs) =
      let want = of_be 0 (take 4 (b ∷ bs)) in
      let page = take head (drop 4 (b ∷ bs)) in
      let later = unpack_loop fuel page_size (at + length page) (drop (4 + length page) (b ∷ bs)) in
      (page ++ later.0, if crc page == want then later.1 else at ∷ later.1)

  unfoldable pub unpack_pages : Bytes → ℕ → Bytes × List ℕ
  unpack_pages bs offset = unpack_loop (length bs) (first_page offset) offset bs
