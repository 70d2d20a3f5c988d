-- ===== src/Client/Raw.antt =====
-- `XRootDRawIO` of src/xrd/io/raw.py, and the modes of src/xrd/flags.py: a file with a position, as
-- Python's raw streams have one. A buffer to read into is its length.
pub mod Refines
pub mod Returns
use py_xroot_dclient.Base.{
  ℕ, Bytes, [], ◌∷◌, suc, ◌+◌, ◌-◌, Bool, true, false, Option, none, some, List, length, ◌==◌,
  if◌then◌else◌, not, ◌&&◌, ◌||◌, is_nil, ltb,
}
use py_xroot_dclient.Base.Int.{ℤ, pos, negsuc, pos_part}
use py_xroot_dclient.Errors.{
  Result, ok, err, Error, value_error, unsupported_operation, os_error, server_error, not_found,
}
use py_xroot_dclient.Proto.Responses.Listing.{StatInfo}
use py_xroot_dclient.Client.Io.{Io, pure, raise, state, modify, lift, ◌>>=◌, ◌>>◌, try_except}
use py_xroot_dclient.Client.Link.{Link}
use py_xroot_dclient.Client.File.{Client, Method, open_as}
use py_xroot_dclient.Client.Read.{size, read_at}
use py_xroot_dclient.Client.Write.{write_at, truncate_to, sync_file, close_file}
use Prim.Native.Nat.{bit_or, bit_and}

-- The letters of a mode: `r`, `w`, `x`, `a`, `b`, `+`, `t`, and `U`, which is dropped.
abbrev pub has : ℕ → Bytes → Bool
has c [] = false
has c (b ∷ bs) = b == c || has c bs

abbrev is_base : ℕ → Bool
is_base b = b == 114 || b == 119 || b == 120 || b == 97

abbrev bases : Bytes → List ℕ
bases [] = []
bases (b ∷ bs) = let later = bases bs in if is_base b then b ∷ later else later

abbrev all_known : Bytes → Bool
all_known [] = true
all_known (b ∷ bs) = (is_base b || b == 43 || b == 98 || b == 116 || b == 85) && all_known bs

pub record Mode : Type 0 where
  pub base : ℕ
  pub binary : Bool
  pub updating : Bool

abbrev mode_of : List ℕ → Bytes → Result Mode
mode_of (b ∷ []) mode =
    if all_known mode
    then ok (record { base = b; binary = has 98 mode; updating = has 43 mode })
    else err value_error
mode_of _ mode = err value_error

-- `parse_mode`
unfoldable pub parse_mode : Bytes → Result Mode
parse_mode mode = if has 98 mode && has 116 mode then err value_error else mode_of (bases mode) mode

-- `flags_for_mode`, with `makepath` set
unfoldable pub flags_for : Mode → Bool → ℕ
flags_for m posc =
    let access =
      if m.base == 114
      then (if m.updating then 0x0020 else 0x0010)
      else if m.base == 119
      then 0x0020 + 0x0002
      else if m.base == 120
      then 0x0020 + 0x0008
      else 0x0020 + 0x0200 in
    if m.base == 114 then access else access + 0x0100 + (if posc then 0x1000 else 0)

pub record RawIo (L : Link) : Type 0 where
  pub client : Client L
  pub mode : Mode
  pub at : ℕ
  pub closed : Bool

-- `whence`
pub data Whence : Type 0 where
  seek_set seek_cur seek_end : Whence

abbrev shift_by : ℤ → ℤ → ℤ
shift_by (pos a) (pos b) = pos (a + b)
shift_by (pos a) (negsuc b) = if ltb b a then pos (a - suc b) else negsuc (b - a)
shift_by (negsuc a) (pos b) = if ltb a b then pos (b - suc a) else negsuc (a - b)
shift_by (negsuc a) (negsuc b) = negsuc (suc (a + b))

unfoldable pub is_readable : Mode → Bool
is_readable m = m.base == 114 || m.updating

unfoldable pub is_writable : Mode → Bool
is_writable m = not (m.base == 114) || m.updating

module _ (L : Link) (urlencode : List (Bytes × Bytes) → Bytes) where
  -- `_open`; owner and group may read, and the owner write.
  unfoldable pub open_for : Mode → Bool → Method L (Option StatInfo)
  open_for m posc =
      let flags = flags_for m posc in
      try_except (open_as L urlencode flags 0x1a0) is_missing (λ e.
        if bit_and flags 0x0200 == 0
        then raise e
        else open_as L urlencode (bit_or flags 0x0008) 0x1a0)
    where
      is_missing : Error → Bool
      is_missing (server_error not_found code message path) = true
      is_missing _ = false

  abbrev pub RawMethod : Type 0 → Type 0
  RawMethod A = Io (RawIo L) A

  -- A method of `self._file`.
  unfoldable pub on_file : {A : Type 0} → Method L A → RawMethod A
  on_file m s = let out = m s.client in (out.0, record s { client = out.1 })

  -- The constructor; `opened` says that the file is open already.
  unfoldable pub new_raw : Bytes → Bool → Bool → Client L → Result (RawIo L) × Client L
  new_raw mode posc opened = do
    m ← lift (parse_mode mode)
    if opened then pure none else open_for m posc
    start ← (if m.base == 97 then size L urlencode else pure (pos 0))
    c ← state
    pure (record { client = c; mode = m; at = pos_part start; closed = false })

  unfoldable pub check_open : RawMethod (Unit {0})
  check_open = do s ← state; if s.closed then raise value_error else pure tt

  unfoldable pub check_readable : RawMethod (Unit {0})
  check_readable = do
    check_open
    s ← state
    if is_readable s.mode then pure tt else raise unsupported_operation

  unfoldable pub check_writable : RawMethod (Unit {0})
  check_writable = do
    check_open
    s ← state
    if is_writable s.mode then pure tt else raise unsupported_operation

  unfoldable pub seek_target : ℤ → Whence → RawMethod ℤ
  seek_target offset seek_set = pure offset
  seek_target offset seek_cur = do s ← state; pure (shift_by (pos s.at) offset)
  seek_target offset seek_end = do whole ← on_file (size L urlencode); pure (shift_by whole offset)

  unfoldable pub seek : ℤ → Whence → RawMethod ℕ
  seek offset whence = do
    target ← seek_target offset whence
    elim target [ negsuc n ↦ raise os_error | pos n ↦ do modify (λ s. record s { at = n }); pure n ]

  -- `readinto`: the bytes that are put into a buffer of this length.
  unfoldable pub readinto : ℕ → RawMethod Bytes
  readinto n = do
    check_readable
    if n == 0 then pure [] else do
      s ← state
      body ← on_file (read_at L urlencode (pos n) s.at)
      modify (λ t. record t { at = t.at + length body })
      pure body

  unfoldable pub readall : RawMethod Bytes
  readall = do
    check_readable
    s ← state
    body ← on_file (read_at L urlencode (negsuc 0) s.at)
    modify (λ t. record t { at = t.at + length body })
    pure body

  unfoldable pub write_next : Bytes → RawMethod ℕ
  write_next body = do
    check_writable
    if is_nil body then pure 0 else do
      s ← state
      written ← on_file (write_at L urlencode body s.at)
      modify (λ t. record t { at = t.at + written })
      pure written

  unfoldable pub truncate_raw : Option ℕ → RawMethod ℕ
  truncate_raw given = do
    check_writable
    s ← state
    let target : ℕ = elim given [ none ↦ s.at | some n ↦ n ]
    on_file (truncate_to L target)
    pure target

  unfoldable pub flush : RawMethod (Unit {0})
  flush = do
    s ← state
    elim s.client.file.handle [
      | none ↦ pure tt
      | some h ↦
          if is_writable s.mode && not s.closed
          then (do on_file (sync_file L); pure tt)
          else pure tt
    ]

  -- `close`: the base class flushes and marks the stream closed, and then the file is closed.
  unfoldable pub close_raw : RawMethod (Unit {0})
  close_raw = do
    s ← state
    if s.closed then pure tt else do
      failed ← try_except (do flush; pure none) (λ e. true) (λ e. pure (some e))
      modify (λ t. record t { closed = true })
      on_file (close_file L)
      elim failed [ none ↦ pure tt | some e ↦ raise e ]
