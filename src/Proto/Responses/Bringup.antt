-- ===== src/Proto/Responses/Bringup.antt =====
-- The bodies of the answers during bring-up, of src/xrd/proto/responses.py.
use py_xroot_dclient.Proto.Buffer.{◌>>=◌, read_u8, rest, read_i32, read_u32}
use py_xroot_dclient.Base.Dict.{Dict, put}
use py_xroot_dclient.Errors.{Result}
use py_xroot_dclient.Proto.Text.{split, before_sep}
use py_xroot_dclient.Base.Int.{ℤ, pos}
use py_xroot_dclient.Proto.Buffer.{Parser, take_bytes, parse_with, fail, pure, remaining}
use py_xroot_dclient.Base.{
  ℕ, Bytes, List, Bool, Option, if◌then◌else◌, false, [], ◌==◌, ◌+◌, leb, min, get_or, ◌∷◌, length,
  some, ◌&&◌, ◌*◌, suc, drop, none,
}
use py_xroot_dclient.Proto.Constants.{kxr_1strequest, kxr_secnone, session_id_len}

starts_s : Bytes → Bool
starts_s [] = false
starts_s (b ∷ bs) = b == b'S'

-- From the vendor's method table on: 4 bytes, then 8 for each method.
skip_methods : Bytes → Option Bytes
unfolding starts_s
skip_methods trailer =
    let off = 4 + get_or trailer 2 0 * 8 in
    if leb (off + 6) (length trailer) && starts_s (drop off trailer)
    then some (drop off trailer)
    else none

unfoldable pub find_sec_reqs : Bytes → Option Bytes
unfolding skip_methods
find_sec_reqs trailer =
    if leb 6 (length trailer) && starts_s trailer
    then some trailer
    else if leb 4 (length trailer)
    then skip_methods trailer
    else none

pub record ProtocolInfo : Type 0 where
  pub version : ℤ
  pub flags : ℕ
  pub security_level : ℕ
  pub security_version : ℕ
  pub security_options : ℕ
  pub security_overrides : Dict ℕ

-- The loop over `secvsz` pairs, which stops early where the record is too short. The list is
-- `reqs[pos:]`.
unfoldable pub read_overrides : ℕ → Bytes → Dict ℕ → Dict ℕ
read_overrides (suc n) (index ∷ (level ∷ more)) acc =
    read_overrides n more (put acc (index + kxr_1strequest) level)
read_overrides _ _ acc = acc

unfoldable pub security_of : ℤ → ℕ → Option Bytes → ProtocolInfo
unfolding read_overrides
security_of version flags none = record {
  version = version;
  flags = flags;
  security_level = kxr_secnone;
  security_version = 0;
  security_options = 0;
  security_overrides = [];
}
security_of version flags (some reqs) = record {
  version = version;
  flags = flags;
  security_level = get_or reqs 4 0;
  security_version = get_or reqs 2 0;
  security_options = get_or reqs 3 0;
  security_overrides = read_overrides (get_or reqs 5 0) (drop 6 reqs) [];
}

unfoldable pub parse_protocol : Bytes → Result ProtocolInfo
parse_protocol = parse_with (do
  version ← read_i32
  flags ← read_u32
  trailer ← rest
  pure (security_of version flags (find_sec_reqs trailer)))

pub record LoginInfo : Type 0 where
  pub sessid : Bytes
  pub sec : Bytes

-- `part[2:].split(",", 1)[0]` of the parts that begin with "P="
mechanism_names : List Bytes → List Bytes
mechanism_names ((b ∷ (c ∷ name)) ∷ parts) =
    let more = mechanism_names parts in
    if b == b'P' && c == b'=' then before_sep b',' name ∷ more else more
mechanism_names (_ ∷ parts) = mechanism_names parts
mechanism_names [] = []

unfoldable pub mechanisms : LoginInfo → List Bytes
unfolding mechanism_names split before_sep
mechanisms l = mechanism_names (split b'&' l.sec)

sessid_bytes : Parser Bytes
sessid_bytes r = take_bytes (pos (min session_id_len (remaining r))) r

unfoldable pub parse_login : Bytes → Result LoginInfo
unfolding sessid_bytes
parse_login = parse_with (do
  sessid ← sessid_bytes
  tail ← rest
  pure (record { sessid = sessid; sec = before_sep 0 tail }))

path_id : ℕ → Parser ℕ
path_id n = if n == 0 then fail else pure n

unfoldable pub parse_bind : Bytes → Result ℕ
unfolding path_id
parse_bind = parse_with (do n ← read_u8; path_id n)
