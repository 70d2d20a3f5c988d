-- ===== src/Proto/Buffer/Split.antt =====
-- What a reader has handed out and what it still holds make up the buffer.
use py_xroot_dclient.Base.{
  ℕ, ◌+◌, ◌≤◌, ◌<◌, ◌≡◌, ◌++◌, Bytes, arith, length, take, drop, take-append-drop, drop-drop, sym,
  ◌∙◌, ap, length-take, length-drop,
}
use py_xroot_dclient.Base.Int.{pos}
use py_xroot_dclient.Errors.{ok, err, protocol_error}
use py_xroot_dclient.Proto.Buffer.{Reader, take_bytes, remaining}

pub record IsReader (r : Reader) : Type 0 where
  pub within : r.at ≤ length r.buf

abbrev pub unread : Reader → Bytes
unread r = drop r.at r.buf

-- The bytes handed out and the bytes left are the bytes that were unread.
pub take-drop_split : (n k : ℕ) (xs : Bytes) → take n (drop k xs) ++ drop (k + n) xs ≡ drop k xs
take-drop_split n k xs =
    ap (λ (t : Bytes). take n (drop k xs) ++ t) (sym (drop-drop n k xs))
    ∙ take-append-drop n (drop k xs)

-- A read succeeds exactly when it is not negative and not longer than what remains.
pub take_bytes-ok :
    (n : ℕ) (r : Reader)
    → IsReader r
    → n ≤ remaining r
    → take_bytes (pos n) r ≡ ok (take n (unread r), record r { at = r.at + n })
unfolding take_bytes remaining
take_bytes-ok n r v h = ground arith

pub take_bytes-err :
    (n : ℕ) (r : Reader) → remaining r < n → take_bytes (pos n) r ≡ err protocol_error
unfolding take_bytes remaining
take_bytes-err n r h = ground arith

-- A read of n bytes from a well-placed cursor: it hands out the first n unread bytes, leaves the
-- others unread and keeps the cursor in the buffer, if that many remain, and is a protocol error
-- otherwise.
pub take_bytes_total :
    (n : ℕ) (r : Reader)
    → IsReader r
    → (n ≤ remaining r
        → (r' : Reader) × (take_bytes (pos n) r ≡ ok (take n (unread r), r'))
          × (take n (unread r) ++ unread r' ≡ unread r)
          × (length (take n (unread r)) ≡ n)
          × IsReader r')
      × (remaining r < n → take_bytes (pos n) r ≡ err protocol_error)
unfolding remaining
take_bytes_total n r v = (
  λ h. (
    record r { at = r.at + n },
    take_bytes-ok n r v h,
    take-drop_split n r.at r.buf,
    omega (arith, length-take n (unread r), length-drop r.at r.buf),
    omega arith,
  ),
  take_bytes-err n r,
)
