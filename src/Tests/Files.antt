-- ===== src/Tests/Files.antt =====
-- Files on a server in memory, some of whose calls fail.
use py_xroot_dclient.Client.File.Kept.{writer_stays_open}
use py_xroot_dclient.Base.{
  ℕ, Bytes, [], ◌∷◌, take, drop, ◌≡◌, refl, arith, List, Bool, true, false, none, some, length, All,
  ◌≤◌,
}
use py_xroot_dclient.Base.Int.{pos}
use py_xroot_dclient.Base.Text.{codes}
use py_xroot_dclient.Errors.{Result, ok, err, transient_error, is_caught, is_transient}
use py_xroot_dclient.Proto.Requests.{Request, read, write, open_file}
use py_xroot_dclient.Client.Io.{◌>>=◌, state, pure, raise, modify, lift, try_except}
use py_xroot_dclient.Proto.Responses.Opened.{parse_open}
use py_xroot_dclient.Proto.Buffer.{take_bytes, remaining}
use py_xroot_dclient.Client.Link.{Link}
use py_xroot_dclient.Client.File.{
  Client, new_file, writing, bulk, bulk_direct, bulk_split, execute, ask_router, next_path,
  the_handle, this, update, on_router, recoverable, reopen, do_open, discard_owned,
  bind_data_streams, bind_streams, remove_path, path_with_cgi,
}
use py_xroot_dclient.Client.File.Carried.{Leaves}
use py_xroot_dclient.Client.Server.{IsReadable, IsWritable, Tried, splice, slice, overlay}
use py_xroot_dclient.Client.Read.{read_at, read_size, read_loop, read_one}
use py_xroot_dclient.Client.Read.Slice.{read_at_lem}
use py_xroot_dclient.Client.Write.{write_at, write_loop, invalidate}
use py_xroot_dclient.Client.Write.Lands.{write_at_lem}
use py_xroot_dclient.Tests.Pool.{ann, server}
use py_xroot_dclient.Proto.Requests.{sync}
use py_xroot_dclient.Client.Ranges.{ReadRange, batches, packed_length}
use py_xroot_dclient.Client.Ranges.Batches.{batches_lem, joined, sum_of}
use py_xroot_dclient.Client.Ranges.Packed.{packed_length-pack_pages}
use py_xroot_dclient.Crypto.Crc32c.Pages.{pack_pages}
use py_xroot_dclient.Client.Write.Checkpoints.{with_checkpoint-leaves}
use py_xroot_dclient.Client.Write.{write_pages, with_checkpoint}
use py_xroot_dclient.Client.Raw.{
  RawIo, seek, seek_target, write_next, check_writable, check_readable, check_open, is_writable,
  is_readable, on_file, readinto,
}
use py_xroot_dclient.Client.Raw.Refines.{
  Op, seek_to, seek_by, read_next, write_bytes, after_ops, perform_all, perform_all-after_ops,
}
use Prim.Native.Nat.{bit_or}

-- The contents of the file, and which of the next calls fail.
abbrev pub Disk : Type 0
Disk = Bytes × List Bool

abbrev serve : Request → Bytes → Bytes × Bytes
serve (read h (pos o) (pos k) p) c = (take k (drop o c), c)
serve (write h (pos o) bs p) c = ([], splice o bs c)
serve (open_file path options mode) c = (codes "hndl", c)
serve _ c = ([], c)

abbrev call : Request → Disk → Result Bytes × Unit {0} × Disk
call request (c, true ∷ fails) = (err transient_error, tt, (c, fails))
call request (c, false ∷ fails) = let out = serve request c in (ok out.0, tt, (out.1, fails))
call request (c, []) = let out = serve request c in (ok out.0, tt, (out.1, []))

abbrev pub memory : Link
memory = record {
  Net = Disk;
  Router = Unit {0};
  fresh = λ u c. tt;
  execute = λ r request n. call request n;
  direct = λ r request n. call request n;
  arrives = λ r n. (ok none, tt, n);
  bind_data_path = λ r n. (ok 1, tt, n);
  pin = λ t r. tt;
  close = λ r n. (tt, n);
  discard = λ r n. (tt, n);
}

abbrev pub contents_of : Disk → Bytes
contents_of d = d.0

reads_disk :
    (h : Bytes) (o k p : ℕ) (n : Disk)
    → Leaves
        (λ d (m : Disk). (m.0 ≡ n.0) × (d ≡ slice o k n.0))
        (λ (m : Disk). m.0 ≡ n.0)
        (call (read h (pos o) (pos k) p) n)
reads_disk h o k p (c, []) = (refl, refl)
reads_disk h o k p (c, true ∷ fails) = refl
reads_disk h o k p (c, false ∷ fails) = (refl, refl)

opens_disk :
    (path : Bytes) (options mode : ℕ) (n : Disk)
    → Leaves
        (λ d (m : Disk). m.0 ≡ n.0)
        (λ (m : Disk). m.0 ≡ n.0)
        (call (open_file path options mode) n)
opens_disk path options mode (c, []) = refl
opens_disk path options mode (c, true ∷ fails) = refl
opens_disk path options mode (c, false ∷ fails) = refl

writes_disk :
    (h : Bytes) (o : ℕ) (bs : Bytes) (p : ℕ) (n : Disk)
    → Leaves
        (λ d (m : Disk). m.0 ≡ splice o bs n.0)
        (Tried contents_of o bs n.0)
        (call (write h (pos o) bs p) n)
writes_disk h o bs p (c, []) = refl
writes_disk h o bs p (c, true ∷ fails) = refl
writes_disk h o bs p (c, false ∷ fails) = refl

pub memory-IsReadable : IsReadable memory contents_of
memory-IsReadable = record {
  arrives = λ r n. refl;
  binds = λ r n. refl;
  discards = λ r n. refl;
  opens = λ flags reading r path mode n. opens_disk path (bit_or flags 0x0400) mode n;
  reads = λ r h o k p n. reads_disk h o k p n;
  reads_sent = λ r h o k p n. reads_disk h o k p n;
}

pub memory-IsWritable : IsWritable memory contents_of
memory-IsWritable = record {
  writes = λ r h o bs p n some_bytes. writes_disk h o bs p n;
  writes_sent = λ r h o bs p n some_bytes. writes_disk h o bs p n;
}

abbrev pub encoded : List (Bytes × Bytes) → Bytes
encoded q = []

-- A file that was opened to read, with two data paths.
abbrev pub opened : ℕ → List Bool → Client memory
opened flags fails = record {
  file = record (new_file memory server ann none) {
    handle = some (codes "hndl");
    flags = flags;
    data_paths = 1 ∷ 1 ∷ [];
  };
  net = (codes "0123456789", fails);
}

-- The first attempt on a data path fails, and so does the second on the control link.
read_at_lem_example :
    (codes "23456" ≡ take 5 (drop 2 (codes "0123456789")))
    × ((read_at memory encoded (pos 5) 2 (opened 0x10 (true ∷ true ∷ false ∷ []))).1.net.0
        ≡ codes "0123456789")
unfolding read_at read_size read_loop read_one bulk bulk_direct bulk_split execute ask_router
    next_path the_handle this update on_router recoverable reopen do_open discard_owned
    bind_data_streams bind_streams remove_path ◌>>=◌ pure raise state modify lift try_except
    is_caught is_transient new_file path_with_cgi parse_open take_bytes remaining
read_at_lem_example =
    read_at_lem memory encoded contents_of memory-IsReadable
      (opened 0x10 (true ∷ true ∷ false ∷ [])) 5 2 refl

write_at_lem_example :
    (◌≡◌ {A = ℕ} 6 6)
    × ((write_at memory encoded
          (codes "abcdef")
          3
          (opened writing (true ∷ true ∷ false ∷ []))).1.net.0
        ≡ splice 3 (codes "abcdef") (codes "0123456789"))
unfolding write_at write_loop invalidate splice overlay bulk bulk_direct bulk_split execute
    ask_router next_path the_handle this update on_router recoverable reopen do_open discard_owned
    bind_data_streams bind_streams remove_path ◌>>=◌ pure raise state modify lift try_except
    is_caught is_transient new_file path_with_cgi parse_open
write_at_lem_example =
    write_at_lem memory encoded contents_of memory-IsReadable memory-IsWritable
      (opened writing (true ∷ true ∷ false ∷ [])) 97 (codes "bcdef") 3 (omega arith) refl refl

batches_lem_example :
    let rs : List ReadRange =
      record { offset = 0; length = 2000000 } ∷ record { offset = 9; length = 2000000 } ∷ [] in
    ((batches rs).1 ≡ none)
    × (joined (batches rs).0 ≡ rs)
    × All (λ b. (1 ≤ length b) × (length b ≤ 1024)) (batches rs).0
    × All (λ b. sum_of (λ (r : ReadRange). r.length) b ≤ 2097152) (batches rs).0
batches_lem_example =
    batches_lem
      (record { offset = 0; length = 2000000 } ∷ record { offset = 9; length = 2000000 } ∷ [])
      (omega arith, (omega arith, tt))

packed_length-pack_pages_example :
    packed_length 3 4094 ≡ length (pack_pages (λ b. length b) (codes "abc") 4094)
packed_length-pack_pages_example = packed_length-pack_pages (λ b. length b) (codes "abc") 4094

-- The begin succeeds, the body fails and so does the rollback.
with_checkpoint-leaves_example :
    (with_checkpoint memory
      (write_pages memory (λ b. 7) (codes "xy") 1)
      (opened writing (false ∷ true ∷ true ∷ []))).1.file.checkpoint
    ≡ false
unfolding new_file
with_checkpoint-leaves_example =
    with_checkpoint-leaves memory (write_pages memory (λ b. 7) (codes "xy") 1)
      (opened writing (false ∷ true ∷ true ∷ [])) refl

writer_stays_open_example :
    ((execute memory encoded (λ f h. ok (sync h)) (opened writing (true ∷ []))).1.file.handle
      ≡ (opened writing (true ∷ [])).file.handle)
    × ((execute memory encoded (λ f h. ok (sync h)) (opened writing (true ∷ []))).1.file.recoveries
        ≡ 0)
    × ((bulk memory encoded
          (λ h p. write h (pos 2) (codes "ab") p)
          (opened writing (true ∷ []))).1.file.handle
        ≡ (opened writing (true ∷ [])).file.handle)
    × ((bulk memory encoded
          (λ h p. write h (pos 2) (codes "ab") p)
          (opened writing (true ∷ []))).1.file.recoveries
        ≡ 0)
unfolding new_file
writer_stays_open_example =
    writer_stays_open memory encoded (opened writing (true ∷ [])) (λ e. cc) (λ f h. ok (sync h))
      (λ h p. write h (pos 2) (codes "ab") p)

abbrev pub stream : RawIo memory
stream = record {
  client = opened writing (true ∷ false ∷ []);
  mode = record { base = 114; binary = true; updating = true };
  at = 0;
  closed = false;
}

abbrev pub ops : List Op
ops =
    seek_to 2 ∷ (write_bytes 97 (codes "b") ∷ (seek_to 0 ∷ (seek_by (pos 1) ∷ (read_next 4 ∷ []))))

perform_all-after_ops_example :
    ([] ∷ ([] ∷ ([] ∷ ([] ∷ (codes "1ab4" ∷ [])))) ≡ (after_ops ops (codes "0123456789", 0)).0)
    × ((perform_all memory encoded ops stream).1.client.net.0
        ≡ (after_ops ops (codes "0123456789", 0)).1.0)
    × ((perform_all memory encoded ops stream).1.at ≡ (after_ops ops (codes "0123456789", 0)).1.1)
unfolding new_file perform_all seek seek_target write_next check_writable check_readable check_open
    is_writable is_readable on_file readinto read_at read_size read_loop read_one write_at
    write_loop invalidate splice overlay bulk bulk_direct bulk_split execute ask_router next_path
    the_handle this update on_router recoverable reopen do_open discard_owned bind_data_streams
    bind_streams remove_path ◌>>=◌ pure raise state modify lift try_except is_caught is_transient
    path_with_cgi parse_open take_bytes remaining
perform_all-after_ops_example =
    perform_all-after_ops memory encoded contents_of memory-IsReadable memory-IsWritable stream ops
      (omega arith) refl refl
