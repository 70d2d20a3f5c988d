-- ===== src/Proto/Requests.antt =====
-- src/xrd/proto/requests.py and the class `Request` of src/xrd/proto/frames.py: a constructor for
-- each request class, with the attributes that its `__init__` stores, and a function by clauses
-- for each method or class attribute that the classes override. A `str` is its UTF-8 form. A
-- field that is packed as unsigned is a natural number, one that is packed as signed an integer.
pub mod Params
use py_xroot_dclient.Proto.Constants.{
  kxr_protocol, kxr_login, kxr_protocolversion, kxr_fattrget, kxr_auth, kxr_ping, kxr_explogin,
  kxr_endsess, kxr_fattrlist, kxr_truncate, kxr_write, kxr_bind, kxr_mkdirpath, kxr_sync,
  kxr_setattr, kxr_locate, kxr_fattr, kxr_readlink, kxr_readv, kxr_pgread, kxr_prepare, kxr_statx,
  kxr_query, kxr_stat, kxr_clone, kxr_sigver, kxr_dirlist, kxr_mv, kxr_rmdir, kxr_open, kxr_rm,
  kxr_link, kxr_set, kxr_mkdir, kxr_nodata_sig, kxr_chmod, kxr_read, kxr_symlink, kxr_close,
  kxr_writev, kxr_chkpoint, kxr_pgwrite,
}
use py_xroot_dclient.Proto.Buffer.{Writer, u32, raw, i32, padded, i64, zeros, u8, u16, u64}
use py_xroot_dclient.Errors.{Result, ok, ◌>>=◌}
use py_xroot_dclient.Base.{
  List, Bool, Bytes, ℕ, [], if◌then◌else◌, true, ◌∷◌, false, ◌++◌, ◌==◌, ◌||◌, length, ◌&&◌,
}
use py_xroot_dclient.Base.Int.{ℤ, pos}

-- `w.u8(a).zeros(15)`
infixl 5 ◌⨾◌
abbrev pub ◌⨾◌ : (Writer → Result Writer) → (Writer → Result Writer) → Writer → Result Writer
◌⨾◌ f g w = f w >>= g

pub data Request : Type 0 where
  protocol : ℕ → Request
  -- username, pid, capver, token
  login : Bytes → ℤ → ℕ → Bytes → Request
  -- credtype, cred
  auth : Bytes → Bytes → Request
  ping : Request
  end_session bind : Bytes → Request
  -- path, options, fhandle
  stat : Bytes → ℕ → Bytes → Request
  statx : List Bytes → Request
  -- path, options
  dirlist locate : Bytes → ℕ → Request
  -- infotype, args, fhandle
  query : ℕ → Bytes → Bytes → Request
  -- paths, options, priority, port, extended
  prepare : List Bytes → ℕ → ℕ → ℕ → ℕ → Request
  -- path, mode, mkpath
  mkdir : Bytes → ℕ → Bool → Request
  rm rmdir : Bytes → Request
  -- src, dst
  mv symlink link : Bytes → Bytes → Request
  readlink : Bytes → Request
  -- path, flags, atime, mtime, uid, gid
  setattr : Bytes → ℤ → ℤ × ℤ → ℤ × ℤ → ℤ → ℤ → Request
  -- path, mode
  chmod : Bytes → ℕ → Request
  -- path, size, fhandle
  truncate : Bytes → ℤ → Bytes → Request
  set : Bytes → Request
  -- path, options, mode
  open_file : Bytes → ℕ → ℕ → Request
  close : Bytes → Request
  -- fhandle, offset, length, pathid
  read : Bytes → ℤ → ℤ → ℕ → Request
  -- fhandle, offset, data, pathid
  write : Bytes → ℤ → Bytes → ℕ → Request
  sync : Bytes → Request
  -- (fhandle, offset, length) triples, pathid
  readv : List (Bytes × ℤ × ℤ) → ℕ → Request
  -- (fhandle, offset, data) triples, options
  writev : List (Bytes × ℤ × Bytes) → ℕ → Request
  -- fhandle, (src_fhandle, offset, length, target_offset) quadruples
  clone : Bytes → List (Bytes × ℤ × ℤ × ℤ) → Request
  -- fhandle, offset, length, reqflags, pathid
  pgread : Bytes → ℤ → ℤ → ℕ → ℕ → Request
  -- fhandle, offset, data, reqflags, pathid
  pgwrite : Bytes → ℤ → Bytes → ℕ → ℕ → Request
  -- fhandle, subcode, data, tail
  chkpoint : Bytes → ℕ → Bytes → Bytes → Request
  -- subcode, body, numattr, options, fhandle
  fattr : ℕ → Bytes → ℕ → ℕ → Bytes → Request
  -- expectrid, seqno, signature, crypto, nodata
  sigver : ℕ → ℕ → Bytes → ℕ → Bool → Request

unfoldable pub opcode : Request → ℕ
opcode (protocol _) = kxr_protocol
opcode (login _ _ _ _) = kxr_login
opcode (auth _ _) = kxr_auth
opcode ping = kxr_ping
opcode (end_session _) = kxr_endsess
opcode (bind _) = kxr_bind
opcode (stat _ _ _) = kxr_stat
opcode (statx _) = kxr_statx
opcode (dirlist _ _) = kxr_dirlist
opcode (locate _ _) = kxr_locate
opcode (query _ _ _) = kxr_query
opcode (prepare _ _ _ _ _) = kxr_prepare
opcode (mkdir _ _ _) = kxr_mkdir
opcode (rm _) = kxr_rm
opcode (rmdir _) = kxr_rmdir
opcode (mv _ _) = kxr_mv
opcode (symlink _ _) = kxr_symlink
opcode (link _ _) = kxr_link
opcode (readlink _) = kxr_readlink
opcode (setattr _ _ _ _ _ _) = kxr_setattr
opcode (chmod _ _) = kxr_chmod
opcode (truncate _ _ _) = kxr_truncate
opcode (set _) = kxr_set
opcode (open_file _ _ _) = kxr_open
opcode (close _) = kxr_close
opcode (read _ _ _ _) = kxr_read
opcode (write _ _ _ _) = kxr_write
opcode (sync _) = kxr_sync
opcode (readv _ _) = kxr_readv
opcode (writev _ _) = kxr_writev
opcode (clone _ _) = kxr_clone
opcode (pgread _ _ _ _ _) = kxr_pgread
opcode (pgwrite _ _ _ _ _) = kxr_pgwrite
opcode (chkpoint _ _ _ _) = kxr_chkpoint
opcode (fattr _ _ _ _ _) = kxr_fattr
opcode (sigver _ _ _ _ _) = kxr_sigver

-- The class attribute `signed`, false in the base class.
unfoldable pub signed : Request → Bool
signed (prepare _ _ _ _ _) = true
signed (mkdir _ _ _) = true
signed (rm _) = true
signed (rmdir _) = true
signed (mv _ _) = true
signed (symlink _ _) = true
signed (link _ _) = true
signed (readlink _) = true
signed (setattr _ _ _ _ _ _) = true
signed (chmod _ _) = true
signed (truncate _ _ _) = true
signed (set _) = true
signed (open_file _ _ _) = true
signed (write _ _ _ _) = true
signed (writev _ _) = true
signed (clone _ _) = true
signed (pgwrite _ _ _ _ _) = true
signed (chkpoint _ _ _ _) = true
signed (fattr _ _ _ _ _) = true
signed _ = false

-- The attribute `idempotent`, true in the base class; `Fattr` sets it in its `__init__`.
unfoldable pub idempotent : Request → Bool
idempotent (auth _ _) = false
idempotent (end_session _) = false
idempotent (bind _) = false
idempotent (prepare _ _ _ _ _) = false
idempotent (mkdir _ _ _) = false
idempotent (rm _) = false
idempotent (rmdir _) = false
idempotent (mv _ _) = false
idempotent (symlink _ _) = false
idempotent (link _ _) = false
idempotent (setattr _ _ _ _ _ _) = false
idempotent (chmod _ _) = false
idempotent (truncate _ _ _) = false
idempotent (set _) = false
idempotent (open_file _ _ _) = false
idempotent (close _) = false
idempotent (write _ _ _ _) = false
idempotent (sync _) = false
idempotent (writev _ _) = false
idempotent (clone _ _) = false
idempotent (pgwrite _ _ _ _ _) = false
idempotent (chkpoint _ _ _ _) = false
idempotent (fattr subcode _ _ _ _) = subcode == kxr_fattrget || subcode == kxr_fattrlist
idempotent _ = true

-- The class attribute 0, shadowed by the requests that can name a data path.
unfoldable pub pathid : Request → ℕ
pathid (read _ _ _ p) = p
pathid (write _ _ _ p) = p
pathid (readv _ p) = p
pathid (pgread _ _ _ _ p) = p
pathid (pgwrite _ _ _ _ p) = p
pathid _ = 0

unfoldable pub reply_on_path : Request → Bool
reply_on_path (read _ _ _ _) = true
reply_on_path (readv _ _) = true
reply_on_path (pgread _ _ _ _ _) = true
reply_on_path _ = false

-- The 16 parameter bytes.
unfoldable pub params : Request → Writer → Result Writer
params (protocol flags) = u32 kxr_protocolversion ⨾ u8 flags ⨾ u8 kxr_explogin ⨾ zeros 10
params (login username pid capver _) = i32 pid ⨾ padded username 8 ⨾ zeros 2 ⨾ u8 capver ⨾ u8 0
params (auth credtype _) = zeros 12 ⨾ padded credtype 4
params (end_session sessid) = padded sessid 16
params (bind sessid) = padded sessid 16
params (stat _ options fhandle) = u8 options ⨾ zeros 11 ⨾ padded fhandle 4
params (dirlist _ options) = zeros 15 ⨾ u8 options
params (locate _ options) = u16 options ⨾ zeros 14
params (query infotype _ fhandle) = u16 infotype ⨾ zeros 2 ⨾ padded fhandle 4 ⨾ zeros 8
params (prepare _ options priority port extended) =
    u8 options ⨾ u8 priority ⨾ u16 port ⨾ u16 extended ⨾ zeros 10
params (mkdir _ mode mkpath) = u8 (if mkpath then kxr_mkdirpath else 0) ⨾ zeros 13 ⨾ u16 mode
params (mv src _) = zeros 14 ⨾ u16 (length src)
params (symlink src _) = zeros 14 ⨾ u16 (length src)
params (link src _) = zeros 14 ⨾ u16 (length src)
params (chmod _ mode) = zeros 14 ⨾ u16 mode
params (truncate _ size fhandle) = padded fhandle 4 ⨾ i64 size ⨾ zeros 4
params (open_file _ options mode) = u16 mode ⨾ u16 options ⨾ zeros 12
params (close fhandle) = padded fhandle 4 ⨾ zeros 12
params (read fhandle offset len _) = padded fhandle 4 ⨾ i64 offset ⨾ i32 len
params (write fhandle offset _ path) = padded fhandle 4 ⨾ i64 offset ⨾ u8 path ⨾ zeros 3
params (sync fhandle) = padded fhandle 4 ⨾ zeros 12
params (readv _ path) = zeros 15 ⨾ u8 path
params (writev _ options) = u8 options ⨾ zeros 15
params (clone fhandle _) = padded fhandle 4 ⨾ zeros 12
params (pgread fhandle offset len _ _) = padded fhandle 4 ⨾ i64 offset ⨾ i32 len
params (pgwrite fhandle offset _ reqflags path) =
    padded fhandle 4 ⨾ i64 offset ⨾ u8 path ⨾ u8 reqflags ⨾ zeros 2
params (chkpoint fhandle subcode _ _) = padded fhandle 4 ⨾ zeros 11 ⨾ u8 subcode
params (fattr subcode _ numattr options fhandle) =
    padded fhandle 4 ⨾ u8 subcode ⨾ u8 numattr ⨾ u8 options ⨾ zeros 9
params (sigver expectrid seqno _ crypto nodata) =
    u16 expectrid
    ⨾ u8 0
    ⨾ u8 (if nodata then kxr_nodata_sig else 0)
    ⨾ u64 seqno
    ⨾ u8 crypto
    ⨾ zeros 3
params _ = zeros 16

-- "\n".join(paths)
unfoldable pub join_lines : List Bytes → Bytes
join_lines [] = []
join_lines (p ∷ []) = p
join_lines (p ∷ (q ∷ ps)) = p ++ (10 ∷ join_lines (q ∷ ps))

-- The `readahead_list` entries of `ReadV.payload`.
unfoldable pub read_list : List (Bytes × ℤ × ℤ) → Writer → Result Writer
read_list [] = raw []
read_list ((fhandle, offset, len) ∷ chunks) =
    padded fhandle 4 ⨾ i32 len ⨾ i64 offset ⨾ read_list chunks

-- The `write_list` entries of `WriteV.payload`.
unfoldable pub write_list : List (Bytes × ℤ × Bytes) → Writer → Result Writer
write_list [] = raw []
write_list ((fhandle, offset, body) ∷ chunks) =
    padded fhandle 4 ⨾ i32 (pos (length body)) ⨾ i64 offset ⨾ write_list chunks

-- The `clone_item` entries of `Clone.payload`.
unfoldable pub clone_items : List (Bytes × ℤ × ℤ × ℤ) → Writer → Result Writer
clone_items [] = raw []
clone_items ((source, offset, len, target) ∷ items) =
    padded source 4 ⨾ zeros 4 ⨾ i64 offset ⨾ i64 len ⨾ i64 target ⨾ clone_items items

unfoldable pub setattr_block : ℤ → ℤ × ℤ → ℤ × ℤ → ℤ → ℤ → Writer → Result Writer
setattr_block flags atime mtime uid gid =
    i32 flags ⨾ i64 atime.0 ⨾ i64 atime.1 ⨾ i64 mtime.0 ⨾ i64 mtime.1 ⨾ i32 uid ⨾ i32 gid

-- The bytes behind the header that `dlen` counts.
unfoldable pub payload : Request → Result Bytes
payload (login _ _ _ token) = ok token
payload (auth _ cred) = ok cred
payload (stat path _ _) = ok path
payload (statx paths) = ok (join_lines paths)
payload (dirlist path _) = ok path
payload (locate path _) = ok path
payload (query _ args _) = ok args
payload (prepare paths _ _ _ _) = ok (join_lines paths)
payload (mkdir path _ _) = ok path
payload (rm path) = ok path
payload (rmdir path) = ok path
payload (mv src dst) = ok (src ++ (32 ∷ dst))
payload (symlink src dst) = ok (src ++ (32 ∷ dst))
payload (link src dst) = ok (src ++ (32 ∷ dst))
payload (readlink path) = ok path
payload (setattr path flags atime mtime uid gid) =
    setattr_block flags atime mtime uid gid [] >>= λ block. ok (block ++ (path ++ (0 ∷ [])))
payload (chmod path _) = ok path
payload (truncate path _ _) = ok path
payload (set text) = ok text
payload (open_file path _ _) = ok path
payload (read _ _ _ path) = if path == 0 then ok [] else (u8 path ⨾ zeros 7) []
payload (write _ _ body path) = ok (if path == 0 then body else [])
payload (readv chunks _) = read_list chunks []
payload (writev chunks _) = write_list chunks []
payload (clone _ items) = clone_items items []
payload (pgread _ _ _ reqflags path) =
    if reqflags == 0 && path == 0 then ok [] else (u8 path ⨾ u8 reqflags ⨾ zeros 2) []
payload (pgwrite _ _ body _ path) = ok (if path == 0 then body else [])
payload (chkpoint _ _ body _) = ok body
payload (fattr _ body _ _ _) = ok body
payload (sigver _ _ signature _ _) = ok signature
payload _ = ok []

-- The bytes that travel on the data path, and that `dlen` counts too.
unfoldable pub path_data : Request → Bytes
path_data (write _ _ body path) = if path == 0 then [] else body
path_data (pgwrite _ _ body _ path) = if path == 0 then [] else body
path_data _ = []

-- b"".join(data for _, _, data in chunks)
unfoldable pub join_data : List (Bytes × ℤ × Bytes) → Bytes
join_data [] = []
join_data ((_, _, body) ∷ chunks) = body ++ join_data chunks

-- The bytes streamed behind the frame that `dlen` does not count.
unfoldable pub trailer : Request → Bytes
trailer (writev chunks _) = join_data chunks
trailer (chkpoint _ _ _ tail) = tail
trailer _ = []
