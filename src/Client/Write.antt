-- ===== src/Client/Write.antt =====
-- The methods of `File` of src/xrd/client/file.py that change the file on the server, its
-- checkpoints, and its end.
pub mod Lands
pub mod Journal
pub mod Returns
pub mod Checkpoints
pub mod Trailers
use Prim.Native.Nat.{max}
use py_xroot_dclient.Base.{
  ℕ, Bytes, [], ◌∷◌, zero, suc, ◌+◌, Bool, true, false, Option, none, some, List, length, ◌==◌,
  if◌then◌else◌, not, bytes_eq, is_nil, take, drop,
}
use py_xroot_dclient.Base.Int.{ℤ, pos, negsuc, pos_part, max_ℤ}
use py_xroot_dclient.Url.{lower}
use py_xroot_dclient.Errors.{
  Result, ok, err, Error, value_error, server_error, unsupported, stuck, is_transient,
  checksum_mismatch,
}
use py_xroot_dclient.Proto.Constants.{
  kxr_wv_dosync, kxr_ckpbegin, kxr_ckpcommit, kxr_ckpquery, kxr_ckprollback,
}
use py_xroot_dclient.Proto.Requests.{
  Request, write, writev, clone, pgwrite, truncate, sync, close, chkpoint,
}
use py_xroot_dclient.Proto.Builders.{execute_checkpoint, fattr_set, fattr_delete}
use py_xroot_dclient.Proto.Responses.Vector.{CheckpointInfo, parse_checkpoint}
use py_xroot_dclient.Crypto.Crc32c.Pages.{pack_pages}
use py_xroot_dclient.Client.Io.{pure, raise, lift, ◌>>=◌, ◌>>◌, try_except}
use py_xroot_dclient.Client.Link.{Link}
use py_xroot_dclient.Client.File.{Method, this, update, on_router, the_handle, bulk, close_owned}
use py_xroot_dclient.Client.Read.{checksum}
use py_xroot_dclient.Client.Ranges.{
  WriteChunk, write_batches, CloneRange, range, destination, clone_max_ranges,
}

-- `UnsupportedError(kXR_Unsupported, ...)`, without the client's own message.
abbrev pub unsupported_error : Error
unsupported_error = server_error unsupported (pos 3013) [] []

-- `(self.handle, ch.offset, ch.data) for ch in batch`
abbrev pub wire_chunks : Bytes → List WriteChunk → List (Bytes × ℤ × Bytes)
wire_chunks h [] = []
wire_chunks h (c ∷ cs) = (h, pos c.offset, c.body) ∷ wire_chunks h cs

-- What a batch of chunks adds to `total` and to `high`.
unfoldable pub count_chunks : List WriteChunk → ℕ × ℕ → ℕ × ℕ
count_chunks [] counts = counts
count_chunks (c ∷ cs) (total, high) =
    count_chunks cs (total + length c.body, max high (c.offset + length c.body))

-- `(origin, cr.offset, cr.length, cr.destination) for cr in wanted if cr.length`
unfoldable pub clone_items_of : Bytes → List CloneRange → List (Bytes × ℤ × ℤ × ℤ)
clone_items_of origin [] = []
clone_items_of origin (r ∷ rs) =
    let later = clone_items_of origin rs in
    elim r.length [
      | pos zero ↦ later
      | pos (suc n) ↦ (origin, r.offset, pos (suc n), destination r) ∷ later
      | negsuc n ↦ (origin, r.offset, negsuc n, destination r) ∷ later
    ]

unfoldable pub all_ranges : List CloneRange → Result (List CloneRange)
all_ranges [] = ok []
all_ranges (r ∷ rs) = elim (range r) [
  | ok span ↦ elim (all_ranges rs) [ ok spans ↦ ok (span ∷ spans) | err e ↦ err e ]
  | err e ↦ err e
]

-- What a batch of ranges adds to `total` and to `high`; none of the numbers is negative.
unfoldable pub count_clones : List (Bytes × ℤ × ℤ × ℤ) → ℕ × ℕ → ℕ × ℕ
count_clones [] counts = counts
count_clones ((_, _, len, at) ∷ items) (total, high) =
    count_clones items (total + pos_part len, max high (pos_part at + pos_part len))

-- The error of a server that does not know the request.
unfoldable pub clone_error : Error → Error
clone_error (server_error c (pos code) message path) =
    if code == 3006 then unsupported_error else server_error c (pos code) message path
clone_error e = e

module _ (L : Link) where
  -- `_submit`
  unfoldable pub submit_write : Request → Method L Bytes
  submit_write request = do
    f ← this L
    if f.checkpoint
        then (do
          h ← the_handle L
          outer ← lift (execute_checkpoint h request)
          on_router L (λ r. L.execute r outer))
        else on_router L (λ r. L.execute r request)

  -- `_invalidate`
  unfoldable pub invalidate : ℕ → Bool → Method L (Unit {0})
  invalidate high_water exact = update L (λ f. record f {
    size_hint = if exact then pos high_water else max_ℤ f.size_hint (pos high_water);
    stat = none;
  })

  -- The batches of `writev`, one request each, with `total` and `high`.
  unfoldable pub write_all_batches : ℕ → List (List WriteChunk) → ℕ × ℕ → Method L (ℕ × ℕ)
  write_all_batches options [] counts = pure counts
  write_all_batches options (b ∷ bs) counts = do
    h ← the_handle L
    on_router L (λ r. L.execute r (writev (wire_chunks h b) options))
    write_all_batches options bs (count_chunks b counts)

  -- `writev`
  unfoldable pub write_chunks : List WriteChunk → Bool → Method L ℕ
  write_chunks chunks flush = do
    f ← this L
    if is_nil chunks then pure 0 else if f.checkpoint then raise unsupported_error else do
      counts ← write_all_batches (if flush then kxr_wv_dosync else 0) (write_batches chunks) (0, 0)
      invalidate counts.1 false
      pure counts.0

  -- `range(0, len(items), CLONE_MAX_RANGES)`, on fuel: a turn takes an item at least.
  unfoldable pub clone_loop : ℕ → Bytes → List (Bytes × ℤ × ℤ × ℤ) → ℕ × ℕ → Method L (ℕ × ℕ)
  clone_loop zero target items counts = if is_nil items then pure counts else raise stuck
  clone_loop (suc fuel) target items counts = if is_nil items then pure counts else do
    let batch = take clone_max_ranges items
    try_except (on_router L (λ r. L.execute r (clone target batch))) (λ e. true)
        (λ e. raise (clone_error e))
    clone_loop fuel target (drop clone_max_ranges items) (count_clones batch counts)

  -- `clone`, of a source with this handle and size; `same` says that both are open on one session.
  unfoldable pub clone_from : Option Bytes → ℤ → Bool → Option (List CloneRange) → Method L ℕ
  clone_from source source_size same ranges = do
    target ← the_handle L
    origin ← elim source [ none ↦ raise value_error | some h ↦ pure h ]
    f ← this L
    if not same then raise value_error else if f.checkpoint then raise unsupported_error else do
      wanted ← elim ranges [
        | none ↦ pure (record { offset = pos 0; length = source_size; target_offset = none } ∷ [])
        | some rs ↦ lift (all_ranges rs)
      ]
      let items = clone_items_of origin wanted
      counts ← clone_loop (length items) target items (0, 0)
      if counts.0 == 0 then pure 0 else do invalidate counts.1 false; pure counts.0

  -- `pgwrite`, with the CRC of a page as a parameter
  unfoldable pub write_pages : (Bytes → ℕ) → Bytes → ℕ → Method L ℕ
  write_pages crc body offset = if is_nil body then pure 0 else do
    h ← the_handle L
    f ← this L
    submit_write (pgwrite h (pos offset) (pack_pages crc body offset) 0 f.pathid)
    invalidate (offset + length body) false
    pure (length body)

  unfoldable pub truncate_to : ℕ → Method L ℕ
  truncate_to n = do
    h ← the_handle L
    submit_write (truncate [] (pos n) h)
    invalidate n true
    pure n

  unfoldable pub sync_file : Method L Bytes
  sync_file = do h ← the_handle L; on_router L (λ r. L.execute r (sync h))

  unfoldable pub setxattr : Bytes → Bytes → Method L Bytes
  setxattr name value = do
    h ← the_handle L
    request ← lift (fattr_set [] name value false h)
    on_router L (λ r. L.execute r request)

  unfoldable pub removexattr : Bytes → Method L Bytes
  removexattr name = do
    h ← the_handle L
    request ← lift (fattr_delete [] name h)
    on_router L (λ r. L.execute r request)

  -- `r.ChkPoint(self.handle, code)`
  unfoldable pub ask_checkpoint : ℕ → Method L Bytes
  ask_checkpoint code = do h ← the_handle L; on_router L (λ r. L.execute r (chkpoint h code [] []))

  -- `with fh.checkpoint(): body`
  unfoldable pub with_checkpoint : {A : Type 0} → Method L A → Method L A
  with_checkpoint body = do
    f ← this L
    if f.checkpoint then raise unsupported_error else do
      ask_checkpoint kxr_ckpbegin
      update L (λ g. record g { checkpoint = true })
      a ←
          try_except body (λ e. true)
            (λ e. do
              update L (λ g. record g { checkpoint = false })
              ask_checkpoint kxr_ckprollback
              update L (λ g. record g { stat = none })
              raise e)
      update L (λ g. record g { checkpoint = false })
      ask_checkpoint kxr_ckpcommit
      pure a

  -- `Checkpoint.query`
  unfoldable pub query_checkpoint : Method L CheckpointInfo
  query_checkpoint = do body ← ask_checkpoint kxr_ckpquery; lift (parse_checkpoint body)

  -- `close`: the router is let go of, however the request ends.
  unfoldable pub close_file : Method L (Unit {0})
  close_file = do
    f ← this L
    update L (λ g. record g { handle = none })
    elim f.handle [
      | none ↦ close_owned L
      | some h ↦ do
        ended ←
            try_except (do on_router L (λ r. L.execute r (close h)); pure none) (λ e. true)
              (λ e. pure (some e))
        close_owned L
        elim ended [ none ↦ pure tt | some e ↦ if is_transient e then pure tt else raise e ]
    ]

module _ (L : Link) (urlencode : List (Bytes × Bytes) → Bytes) where
  -- `while written < len(view)`, on fuel, with what is left to write and where.
  unfoldable pub write_loop : ℕ → ℕ → Bytes → ℕ → Method L (Unit {0})
  write_loop zero limit left at = raise stuck
  write_loop (suc fuel) limit left at = if is_nil left then pure tt else do
    f ← this L
    let piece = take limit left
    if f.checkpoint
        then (do h ← the_handle L; submit_write L (write h (pos at) piece f.pathid))
        else bulk L urlencode (λ h p. write h (pos at) piece p)
    write_loop fuel limit (drop limit left) (at + length piece)

  -- `write`. A turn of the loop takes at least one byte, if a chunk does.
  unfoldable pub write_at : Bytes → ℕ → Method L ℕ
  write_at body offset = do
    f ← this L
    write_loop (suc (length body)) f.config.chunk_size body offset
    invalidate L (offset + length body) false
    pure (length body)

  -- `verify`
  unfoldable pub verify : Bytes → Bytes → Method L (Unit {0})
  verify expected algorithm = do
    actual ← checksum L urlencode algorithm
    if bytes_eq (lower actual.value) (lower expected)
        then pure tt
        else raise (checksum_mismatch (lower actual.value))
