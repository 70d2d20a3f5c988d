-- ===== src/Proto/Responses/Opened.antt =====
-- `parse_open` of src/xrd/proto/responses.py.
use py_xroot_dclient.Base.{Bytes, none, some, [], Option, if◌then◌else◌, ltb, ◌∷◌}
use py_xroot_dclient.Base.Int.{ℤ, pos}
use py_xroot_dclient.Proto.Text.{before_sep}
use py_xroot_dclient.Proto.Constants.{fhandle_len}
use py_xroot_dclient.Proto.Responses.Listing.{StatInfo, stat_fields, strip}
use py_xroot_dclient.Errors.{Result, ok, err}
use py_xroot_dclient.Proto.Buffer.{Parser, ◌>>=◌, take_bytes, read_i32, remaining, rest, parse_with}

pub record Opened : Type 0 where
  pub fhandle : Bytes
  pub stat : Option StatInfo
  pub compression : ℤ × Bytes

-- `_stat_fields(tail, path) if tail else None`
optional_stat : Bytes → Bytes → Result (Option StatInfo)
optional_stat [] path = ok none
optional_stat (b ∷ bs) path = elim (stat_fields (b ∷ bs) path) [
  | ok info ↦ ok (some info)
  | err e ↦ err e
]

-- What follows the handle, where eight bytes or more do.
open_tail : Bytes → Bytes → Parser Opened
open_tail path fhandle = do
  page ← read_i32
  name ← take_bytes (pos 4)
  tail ← rest
  λ r. elim (optional_stat (strip (before_sep 0 tail)) path) [
    | ok info ↦
        ok (record { fhandle = fhandle; stat = info; compression = (page, before_sep 0 name) }, r)
    | err e ↦ err e
  ]

unfoldable pub parse_open : Bytes → Bytes → Result Opened
unfolding open_tail optional_stat
parse_open body path =
    parse_with
      (do
        fhandle ← take_bytes (pos fhandle_len)
        λ r.
            if ltb (remaining r) 8
            then ok (record { fhandle = fhandle; stat = none; compression = (pos 0, []) }, r)
            else open_tail path fhandle r)
      body
