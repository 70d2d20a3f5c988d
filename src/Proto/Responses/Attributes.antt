-- ===== src/Proto/Responses/Attributes.antt =====
-- `parse_fattr` and `parse_fattr_tree` of src/xrd/proto/responses.py.
use py_xroot_dclient.Proto.Buffer.{◌>>=◌, read_u16, pure, read_i32, take_bytes}
use py_xroot_dclient.Errors.{Result, err, stuck, ok}
use py_xroot_dclient.Proto.Buffer.{Parser, remaining, Reader, read_u8, parse_with}
use py_xroot_dclient.Base.{
  ℕ, Bool, Bytes, Option, List, ◌+◌, if◌then◌else◌, [], suc, ltb, length, ◌∷◌, ◌==◌, some, ◌&&◌,
  leb, none, zero,
}

pub record FattrItem : Type 0 where
  pub name : Bytes
  pub code : ℕ
  pub value : Option Bytes

pub record FattrResult : Type 0 where
  pub errors : ℕ
  pub items : List FattrItem

-- The loop of `_read_name`, on fuel: bytes up to a NUL, which must be there.
read_name_loop : ℕ → Parser Bytes
read_name_loop zero r = err stuck
read_name_loop (suc fuel) r = elim (read_u8 r) [
  | ok (b, r') ↦
      (let more = (do bs ← read_name_loop fuel; pure (b ∷ bs)) r' in
        if b == 0 then ok ([], r') else more)
  | err e ↦ err e
]

-- A turn takes a byte, and one past the last raises.
read_name : Parser Bytes
unfolding read_name_loop
read_name r = read_name_loop (remaining r + 1) r

read_value : Bool → Parser (Option Bytes)
read_value values r =
    let found : Result (Option Bytes × Reader) =
      (do len ← read_i32; bs ← take_bytes len; pure (some bs)) r in
    if values && leb 4 (remaining r) then found else ok (none, r)

fattr_item : Bool → Parser FattrItem
unfolding read_name read_value
fattr_item values = do
  code ← read_u16
  name ← read_name
  value ← read_value values
  pure (record { name = name; code = code; value = value })

fattr_items : Bool → ℕ → Parser (List FattrItem)
fattr_items values zero r = ok ([], r)
fattr_items values (suc n) r =
    let more = (do item ← fattr_item values; items ← fattr_items values n; pure (item ∷ items)) r in
    if ltb (remaining r) 3 then ok ([], r) else more

unfoldable pub parse_fattr : Bytes → Bool → Result FattrResult
unfolding fattr_items fattr_item
parse_fattr body values =
    if ltb (length body) 2
    then ok (record { errors = 0; items = [] })
    else parse_with
        (do
          errors ← read_u8
          count ← read_u8
          items ← fattr_items values count
          pure (record { errors = errors; items = items }))
        body
