-- ===== src/Lib.antt =====
-- PyXRootDClient, a client for the XRootD protocol in Python, and here the parts of it that
-- need no I/O of their own: bytes, frames, requests, answers, request signing, the session
-- machine, the pool and the router of connections, files, raw streams and copies over them,
-- checksums, the DER reader and the paths of URLs.
--
-- A driver (src/xrd/session/sync.py, src/xrd/aio.py) owns a socket and a machine. It passes
-- received bytes to `receive_data`, sends what `data_to_send` returns and reacts to the
-- events. The machine frames the bytes (`_parse`), dispatches each answer to the bring-up
-- (`_bringup`) or to the stream that waits for it (`_on_response`), encodes requests
-- (`proto/frames.py`, `proto/requests.py`) and signs them (`crypto/sigver.py`). Above the
-- drivers a router (src/xrd/session/router.py) follows redirects and replaces lost
-- connections, and takes connections from and gives them back to a pool
-- (src/xrd/session/pool.py). A file (src/xrd/client/file.py) makes its requests through a
-- router, spreads its chunks over data paths and is opened again where a server is lost; a raw
-- stream (src/xrd/io/raw.py) has a file and a position; a copy (src/xrd/copy/engine.py) moves
-- bytes between two ends and compares checksums.
--
-- What models which part:
--   Errors: src/xrd/errors.py, exceptions as values and `raise_for_status`.
--   Proto.Constants: src/xrd/proto/constants.py.
--   Proto.Buffer: src/xrd/proto/buffer.py; a reader is a buffer with a cursor, and a parser
--     passes it on; a writer is the bytes so far.
--   Proto.Requests: src/xrd/proto/requests.py, one constructor for each request class and
--     one function for each method that the classes override; Proto.Builders has their
--     class methods.
--   Proto.Frames: src/xrd/proto/frames.py, `encode` and `decode_header`.
--   Proto.Responses: src/xrd/proto/responses.py; Control has the answers of any stream,
--     Bringup those of the login, Vector and Attributes those of vector reads and attribute
--     requests, Listing the text answers about files and directories. Proto.Text has the
--     operations on `str` that they use.
--   Proto.Machine: src/xrd/proto/machine.py. State has the attributes of `SessionMachine`
--     as a record, Exec the monad of the methods that may raise (the state at the raise is
--     kept), Outbound the methods that send, Login the bring-up, Answers the dispatch,
--     Framing the loop over received bytes. Secure, Quiet and Streams are invariants, each
--     with a child beside the methods that keep it, and Reach the sequences of calls that a
--     driver may make.
--   Session: src/xrd/session. World has the sessions, numbered, and the dictionary of idle
--     ones; Identity is `_identity` and `_key`, Pool is `SessionPool` (Every, Accounts,
--     Bounds and History prove), Router is `Router` (Turns, Tries, Idempotent and Keyed
--     prove). Url has the record, the derivations and the normalisation of paths of
--     src/xrd/url.py (Normal proves), Config the settings of src/xrd/config.py that the
--     others read.
--   Crypto.Sigver: src/xrd/crypto/sigver.py.
--   Crypto.Crc32c: src/xrd/crypto/crc32c.py and src/xrd/crypto/crc64.py (Linear, Slices and
--     Chaining prove), and in its child Pages the pages of pgread and pgwrite.
--     Crypto.Checksum: src/xrd/crypto/checksum.py, the digests by name. Crypto.Der:
--     src/xrd/crypto/der.py (Parts, RoundTrip and Oid prove).
--   Client: Io is the monad of the methods of one object, with rules to prove what a method
--     keeps; Link is the interface that a file has to its router and to what lies beyond
--     it; File is the life of `File` of src/xrd/client/file.py and how a request about it
--     is run (`_execute`, `_bulk`, `_reopen`), with what any build of a request carries
--     through these (Carried, Once, Kept, Answered); Ranges the batches of vector requests
--     (Batches, Packed prove), Read and Write the operations, Server what a server does
--     that keeps the contents of a file, Raw the stream of src/xrd/io/raw.py with the modes
--     of src/xrd/flags.py; the modules Returns prove that the loops come to their end.
--   Copy: src/xrd/copy/engine.py. Plan has the decisions before a transfer, Parallel the
--     workers of `_in_parallel` as steps, Ahead the two threads of `_Ahead` as steps,
--     Transfer the function `copy` over an interface to the two ends.
--   Base: what all of them share. Tests: runs at concrete inputs.
--
-- Bytes are lists of natural numbers, a text is its UTF-8 form, a field that `struct` packs as
-- signed is an integer. Packing fails, as `struct` does, on a number out of range. A dict is
-- an association list in the order of insertion.
--
-- Loops that are not structural run on fuel. `parse` has one unit more than the buffered
-- bytes, two for a header that is being served and one for a trailer that is waited for;
-- `parse_readv` has the length of the body; `_read_name` has what remains and one more.
-- `execute` of the router has one more than its limits of redirects and retries together.
-- `pack_pages` and `unpack_pages` have the length of their data, of which a page takes at
-- least one byte, and `parse_all` of DER too. The loops of `File.read` and `File.write` have
-- one unit more than the bytes that are left, of which a turn takes at least one where a chunk
-- is not empty; `_spans` has the size of the file.
--
-- Parameters, for what is not in the repository or is a separate part: HMAC-SHA256, the ladder
-- of credentials that `auth.select` offers, a credential (its answers as a function of the
-- challenges so far), `config.wait_cap` and the process id; for the pool and the router
-- SHA-256, Python's `repr`, the clock, and what each new connection and each request comes to;
-- for the pages the CRC, which google-crc32c computes where it is installed; for the digests
-- zlib's `adler32` and `crc32` and the objects of hashlib; for a file its router and the net
-- behind it, as the record Link, and the quoting of a query by urllib; for a copy the two
-- ends, as the record Storage, and `fnmatch`. Where a theorem is about the contents of a file
-- it has as hypotheses what the server does with one: IsReadable, that an answered open or
-- read leaves the contents and a read returns the slice asked for, and IsWritable, that an
-- answered write puts its bytes where it says and a failed one has done part of that at most.
-- Time is in ticks. The pool's lock makes each of its operations one step; a router and a file
-- are used by one thread.
--
-- Not modelled: texts that only describe an error or an event, logging, sockets, threads and
-- locks, the drivers, file systems and the asynchronous client, how a copy opens its ends and
-- copies trees, HTTP, S3, ROOT files, the authentication mechanisms and the command line.
-- `rejected`, which `auth.select` may fill while it builds the ladder, is filled by the
-- machine only.
pub mod Base
pub mod Errors
pub mod Crypto
pub mod Config
pub mod Url
pub mod Proto
pub mod Session
pub mod Client
pub mod Copy
pub mod Tests
