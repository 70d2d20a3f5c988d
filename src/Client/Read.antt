-- ===== src/Client/Read.antt =====
-- The methods of `File` of src/xrd/client/file.py that ask and change nothing: stat, checksum,
-- reads, vector reads and paged reads, and those of attributes. A size may be negative.
pub mod Slice
pub mod Returns
use py_xroot_dclient.Base.{
  ℕ, Bytes, [], ◌∷◌, zero, suc, ◌+◌, ◌-◌, ◌++◌, Bool, true, false, Option, none, some, List, length,
  ◌==◌, if◌then◌else◌, is_nil, ltb, leb, min,
}
use py_xroot_dclient.Base.Int.{ℤ, pos, negsuc, pos_part}
use py_xroot_dclient.Base.Text.{codes}
use py_xroot_dclient.Config.{Config}
use py_xroot_dclient.Session.Router.{has_mark}
use py_xroot_dclient.Errors.{Result, ok, err, protocol_error, foreign, too_large, stuck}
use py_xroot_dclient.Proto.Constants.{kxr_qcksum, kxr_qvisa, null_fhandle}
use py_xroot_dclient.Proto.Requests.{Request, stat, query, read, readv, pgread}
use py_xroot_dclient.Proto.Builders.{fattr_get, fattr_list}
use py_xroot_dclient.Proto.Responses.Listing.{StatInfo, ChecksumInfo, parse_stat, parse_checksum}
use py_xroot_dclient.Proto.Responses.Vector.{ReadVSegment, parse_readv}
use py_xroot_dclient.Proto.Responses.Attributes.{FattrItem, parse_fattr}
use py_xroot_dclient.Crypto.Crc32c.Pages.{unpack_pages}
use py_xroot_dclient.Client.Io.{pure, raise, lift, ◌>>=◌, ◌>>◌}
use py_xroot_dclient.Client.Link.{Link}
use py_xroot_dclient.Client.File.{
  File, Method, this, update, on_router, execute, bulk, path_with_cgi,
}
use py_xroot_dclient.Client.Ranges.{
  ReadRange, batches, Answers, add_answer, segments_for, packed_length,
}

-- `Config.check_whole_read`
unfoldable pub check_whole_read : Config → ℕ → Result (Unit {0})
check_whole_read c size = elim c.max_read_size [
  | pos zero ↦ ok tt
  | pos (suc n) ↦ if ltb (suc n) size then err (too_large size (suc n)) else ok tt
  | negsuc n ↦ err (too_large size 0)
]

-- An answer at a negative offset is kept under no key that is looked up.
abbrev note_segment : ReadVSegment → Answers → Answers
note_segment s d = elim s.offset [ pos n ↦ add_answer d n s.body | negsuc n ↦ d ]

-- `out.setdefault(segment.offset, []).append(segment.data)`
unfoldable pub note_segments : List ReadVSegment → Answers → Answers
note_segments [] d = d
note_segments (s ∷ ss) d = note_segments ss (note_segment s d)

pub record PageResult : Type 0 where
  pub body : Bytes
  pub offset : ℕ
  pub corrupt_pages : List ℕ

-- The first item that has a value and no error.
unfoldable pub first_value : List FattrItem → Option Bytes
first_value [] = none
first_value (i ∷ items) =
    let later = first_value items in
    if i.code == 0 then elim i.value [ none ↦ later | some v ↦ some v ] else later

abbrev names_of : List FattrItem → List Bytes
names_of [] = []
names_of (i ∷ items) = i.name ∷ names_of items

module _ (L : Link) (urlencode : List (Bytes × Bytes) → Bytes) where
  -- `stat`
  unfoldable pub stat_file : Bool → Method L StatInfo
  stat_file refresh = do
    f ← this L
    let ask : Method L StatInfo = do
      body ← execute L urlencode (λ g h. ok (stat [] 0 h))
      info ← lift (parse_stat body f.url.path)
      update L (λ g. record g { stat = some info; size_hint = info.st_size })
      pure info
    elim f.stat [ none ↦ ask | some info ↦ if refresh then ask else pure info ]

  unfoldable pub size : Method L ℤ
  size = do
    f ← this L
    elim f.stat [
      | some info ↦ pure f.size_hint
      | none ↦ do info ← stat_file false; pure info.st_size
    ]

  unfoldable pub checksum : Bytes → Method L ChecksumInfo
  checksum algorithm = do
    f ← this L
    let plain = path_with_cgi urlencode f.url
    let path =
        if is_nil algorithm
        then plain
        else plain ++ ((if has_mark plain then 38 else 63) ∷ codes "cks.type=" ++ algorithm)
    body ← on_router L (λ r. L.execute r (query kxr_qcksum path null_fhandle))
    lift (parse_checksum body)

  unfoldable pub visa : Method L Bytes
  visa = execute L urlencode (λ f h. ok (query kxr_qvisa [] h))

  -- `_read_one`
  unfoldable pub read_one : ℕ → ℕ → Method L Bytes
  read_one offset len = do
    body ← bulk L urlencode (λ h p. read h (pos offset) (pos len) p)
    if ltb len (length body) then raise protocol_error else pure body

  -- `while remaining`, on fuel, from the offset `at`; the parts joined.
  unfoldable pub read_loop : ℕ → ℕ → ℕ → ℕ → Method L Bytes
  read_loop zero limit remaining at = raise stuck
  read_loop (suc fuel) limit remaining at = if remaining == 0 then pure [] else do
    let n = min remaining limit
    chunk ← read_one at n
    if ltb (length chunk) n
        then pure chunk
        else do later ← read_loop fuel limit (remaining - n) (at + n); pure (chunk ++ later)

  -- `read` of a size that is known. A turn of the loop takes at least one byte, if a chunk does.
  unfoldable pub read_size : ℕ → ℕ → Method L Bytes
  read_size n offset = do
    f ← this L
    let limit = f.config.chunk_size
    if n == 0
        then pure []
        else if leb n limit
        then read_one offset n
        else read_loop (suc n) limit n offset

  -- `read`
  unfoldable pub read_at : ℤ → ℕ → Method L Bytes
  read_at (pos n) offset = read_size n offset
  read_at (negsuc n) offset = do
    whole ← size
    f ← this L
    lift (check_whole_read f.config (pos_part whole - offset))
    read_size (pos_part whole - offset) offset

  -- `_readv_for`
  unfoldable pub readv_for : List ReadRange → File L → Bytes → Result Request
  readv_for batch f h = ok (readv (wire batch) f.pathid)
    where
      wire : List ReadRange → List (Bytes × ℤ × ℤ)
      wire [] = []
      wire (r ∷ rs) = (h, pos r.offset, pos r.length) ∷ wire rs

  -- The batches that were made, one request each.
  unfoldable pub read_batches : List (List ReadRange) → Answers → Method L Answers
  read_batches [] d = pure d
  read_batches (b ∷ bs) d = do
    body ← execute L urlencode (readv_for b)
    segments ← lift (parse_readv body)
    read_batches bs (note_segments segments d)

  -- `readv`
  unfoldable pub read_ranges : List ReadRange → Method L (List Bytes)
  read_ranges wanted = do
    let split = batches wanted
    d ← read_batches split.0 []
    elim split.1 [ none ↦ lift (segments_for wanted d) | some e ↦ raise e ]

  -- `pgread`, with the CRC of a page as a parameter
  unfoldable pub read_pages : (Bytes → ℕ) → ℕ → ℕ → Bool → Method L PageResult
  read_pages crc n offset verify = do
    body ← execute L urlencode (λ f h. ok (pgread h (pos offset) (pos n) 0 f.pathid))
    if ltb (packed_length n offset) (length body) then raise protocol_error else do
      let pages = unpack_pages crc body offset
      pure (record {
        body = pages.0;
        offset = offset;
        corrupt_pages = if verify then pages.1 else [];
      })

  -- `getxattr`; `KeyError` is none of the library's.
  unfoldable pub getxattr : Bytes → Method L Bytes
  getxattr name = do
    body ← execute L urlencode (λ f h. fattr_get [] name h)
    found ← lift (parse_fattr body true)
    elim (first_value found.items) [ none ↦ raise foreign | some v ↦ pure v ]

  unfoldable pub listxattr : Method L (List Bytes)
  listxattr = do
    body ← execute L urlencode (λ f h. fattr_list [] false h false)
    found ← lift (parse_fattr body false)
    pure (names_of found.items)
