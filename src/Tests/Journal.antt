-- ===== src/Tests/Journal.antt =====
-- A write of src/xrd/client/file.py in a checkpoint.
mod Server
use py_xroot_dclient.Base.{◌∷◌, ◌≡◌, refl, arith, true, none, some}
use py_xroot_dclient.Base.Text.{codes}
use py_xroot_dclient.Proto.Buffer.{
  raw, u16, u32, be, pack_unsigned, pack_signed, u8, i64, padded, zeros, pad,
}
use py_xroot_dclient.Proto.Requests.{params, payload, opcode, path_data, trailer}
use py_xroot_dclient.Proto.Frames.{encode, finish, header}
use py_xroot_dclient.Proto.Builders.{execute_checkpoint}
use py_xroot_dclient.Client.File.{Client, new_file, this, the_handle, on_router, update}
use py_xroot_dclient.Client.Write.Journal.{checkpointed_lands, by_write, make, made}
use py_xroot_dclient.Client.Io.{◌>>=◌, state, pure, lift, modify, raise}
use py_xroot_dclient.Client.Write.{write_at, write_loop, submit_write, invalidate}
use py_xroot_dclient.Crypto.Sigver.{elem}
use py_xroot_dclient.Tests.Pool.{ann, server}
use py_xroot_dclient.Tests.Files.{encoded}
use py_xroot_dclient.Tests.Journal.Server.{journal, effect, journal_runs, journal_writes}

-- In a checkpoint, with chunks of three bytes.
abbrev inside : Client journal
inside = record {
  file =
      let f = new_file journal server ann none in
      record f {
        handle = some (codes "hndl");
        checkpoint = true;
        config = record f.config { chunk_size = 3 };
      };
  net = codes "0123456789";
}

checkpointed_lands_example :
    (make journal encoded (λ b. 7) (by_write 97 (codes "bcd") 2) inside).1.net
    ≡ made journal encoded
        (λ b. 7)
        effect
        (codes "hndl")
        (by_write 97 (codes "bcd") 2)
        (codes "0123456789")
unfolding new_file write_at ◌>>=◌ this state pure write_loop the_handle submit_write lift
    execute_checkpoint elem opcode encode params padded i64 on_router update modify raise invalidate
    be pack_signed pack_unsigned pad u16 u32 u8 raw zeros finish header path_data payload trailer
checkpointed_lands_example =
    checkpointed_lands journal encoded (λ b. 7) (λ n. n) effect journal_runs journal_writes inside
      (codes "hndl") refl refl refl (omega arith) (by_write 97 (codes "bcd") 2) 4 refl
