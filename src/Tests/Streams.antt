-- ===== src/Tests/Streams.antt =====
-- A stream on a server in memory that answers everything.
use py_xroot_dclient.Base.{ℕ, Bytes, [], ◌∷◌, drop, length, ◌≡◌, ◌≤◌, refl, arith, length-take}
use py_xroot_dclient.Base.Int.{pos}
use py_xroot_dclient.Base.Text.{codes}
use py_xroot_dclient.Errors.{ok}
use py_xroot_dclient.Proto.Requests.{read, write}
use py_xroot_dclient.Client.File.{writing, new_file}
use py_xroot_dclient.Client.File.Answered.{Returned}
use py_xroot_dclient.Client.Raw.{RawIo, is_readable, is_writable}
use py_xroot_dclient.Client.Raw.Refines.{after_ops, perform_all}
use py_xroot_dclient.Client.Raw.Returns.{IsUsable, perform_all_returns}
use py_xroot_dclient.Tests.Files.{
  Disk, memory, contents_of, encoded, opened, ops, memory-IsReadable, memory-IsWritable, stream,
}

-- No call is going to fail.
abbrev NoFaults : Unit {0} → Disk → Type 0
NoFaults r d = d.1 ≡ []

answers_read :
    (o k : ℕ) (r : Unit {0}) (p : ℕ) (n : Disk)
    → NoFaults r n
    → Returned
        (λ (d : Bytes). length d ≤ k)
        NoFaults
        (memory.execute r (read (codes "hndl") (pos o) (pos k) p) n)
answers_read o k r p (c, []) e = (omega (arith, length-take k (drop o c)), refl)
answers_read o k r p (c, b ∷ fails) e = absurd (cc)

answers_write :
    (o : ℕ) (bs : Bytes) (r : Unit {0}) (p : ℕ) (n : Disk)
    → NoFaults r n
    → Returned
        (λ (d : Bytes). Unit)
        NoFaults
        (memory.execute r (write (codes "hndl") (pos o) bs p) n)
answers_write o bs r p (c, []) e = (tt, refl)
answers_write o bs r p (c, b ∷ fails) e = absurd (cc)

abbrev steady : RawIo memory
steady = record stream {
  client = record (opened writing []) {
    file = record (opened writing []).file { data_paths = [] };
  };
}

steady-IsUsable : IsUsable memory encoded NoFaults (codes "hndl") steady.client.file.config steady
unfolding new_file is_readable is_writable
steady-IsUsable = record {
  ready = record { up = refl; opened = refl; alone = refl; plain = refl; same = refl };
  still_open = refl;
  reading = refl;
  writing = refl;
}

perform_all_returns_example :
    (perform_all memory encoded ops steady).0 ≡ ok (after_ops ops (codes "0123456789", 0)).0
unfolding new_file
perform_all_returns_example =
    perform_all_returns memory encoded contents_of memory-IsReadable memory-IsWritable NoFaults
      (codes "hndl") answers_read answers_write steady steady-IsUsable (omega arith) ops
      (tt, (tt, (tt, (tt, (tt, tt)))))
