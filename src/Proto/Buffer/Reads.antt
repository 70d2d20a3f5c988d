-- ===== src/Proto/Buffer/Reads.antt =====
-- Parsers against the bytes that they read: `Reads p bs a` says that p, in front of bs, takes
-- exactly these and returns a, whatever follows.
use py_xroot_dclient.Proto.Buffer.RoundTrip.{
  pack_unsigned-ok, length-pack_unsigned, pack_signed-ok, length-pack_signed, of_be_written,
  pattern_of,
}
use mathlib.Core.List.{append_assoc}
use py_xroot_dclient.Errors.{ok}
use py_xroot_dclient.Base.Int.{pos, ℤ}
use py_xroot_dclient.Proto.Buffer.Split.{IsReader, unread}
use py_xroot_dclient.Base.{
  Bytes, [], ◌≡◌, length, ◌++◌, ◌+◌, refl, ◌∙◌, le→ltb, ◌≤◌, arith, take-length, ap, sym,
  length-drop, drop-drop, drop, length-append, drop-length, ℕ, subst,
}
use py_xroot_dclient.Proto.Buffer.{
  Parser, take_bytes, pure, Reader, ◌>>=◌, read_unsigned, read_signed, pack_unsigned, pack_signed,
}

pub record Took {A : Type 0} (p : Parser A) (r : Reader) (a : A) (more : Bytes) : Type 0 where
  pub next : Reader
  pub runs : p r ≡ ok (a, next)
  pub placed : IsReader next
  pub left : unread next ≡ more

pub record Reads {A : Type 0} (p : Parser A) (bs : Bytes) (a : A) : Type 0 where
  pub on : (r : Reader) (more : Bytes) → IsReader r → unread r ≡ bs ++ more → Took p r a more

pub Reads-pure : {A : Type 0} (a : A) → Reads (pure a) [] a
Reads-pure a = record { on = λ r more v e. record { next = r; runs = refl; placed = v; left = e } }

pub Took-bind :
    {A B : Type 0} (p : Parser A) (f : A → Parser B) {r : Reader} {a : A} {b : B} {more end : Bytes}
    (t : Took p r a more)
    → Took (f a) t.next b end
    → Took (p >>= f) r b end
Took-bind p f t u = record {
  next = u.next;
  runs = rw (t.runs, ◌>>=◌) u.runs;
  placed = u.placed;
  left = u.left;
}

pub Reads-bind :
    {A B : Type 0} (p : Parser A) (f : A → Parser B) {bs cs : Bytes} {a : A} {b : B}
    → Reads p bs a
    → Reads (f a) cs b
    → Reads (p >>= f) (bs ++ cs) b
Reads-bind p f {bs = bs} {cs = cs} h k = record {
  on = λ r more v e.
      let t = h.on r (cs ++ more) v (e ∙ append_assoc bs cs more) in
      Took-bind p f t (k.on t.next more t.placed t.left);
}

-- Enough bytes are left when the unread ones are known.
within_of_unread :
    (r : Reader) (bs more : Bytes)
    → IsReader r
    → unread r ≡ bs ++ more
    → r.at + length bs ≤ length r.buf
within_of_unread r bs more v e =
    omega (arith, v.within, ap length e, length-drop r.at r.buf, length-append bs more)

pub Reads-take : (bs : Bytes) → Reads (take_bytes (pos (length bs))) bs bs
unfolding take_bytes
Reads-take bs = record {
  on = λ r more v e. record {
    next = record r { at = r.at + length bs };
    runs = rw (
      le→ltb (length r.buf) (r.at + length bs) (within_of_unread r bs more v e),
      e,
      take-length bs more,
    );
    placed = record { within = within_of_unread r bs more v e };
    left = sym (drop-drop (length bs) r.at r.buf) ∙ ap (drop (length bs)) e ∙ drop-length bs more;
  };
}

pub Reads-unsigned :
    (n v : ℕ) (bs : Bytes) → pack_unsigned n v ≡ ok bs → Reads (read_unsigned n) bs v
unfolding read_unsigned
Reads-unsigned n v bs h = record {
  on = λ r more v' e.
      let (fits, eb) = pack_unsigned-ok n v bs h in
      let len : length bs ≡ n = length-pack_unsigned n v bs h in
      let t = (subst (λ k. Reads (take_bytes (pos k)) bs bs) len (Reads-take bs)).on r more v' e in
      record {
        next = t.next;
        runs = rw (t.runs, read_unsigned, of_be_written n v fits eb);
        placed = t.placed;
        left = t.left;
      };
}

pub Reads-signed :
    (n : ℕ) (z : ℤ) (bs : Bytes) → pack_signed n z ≡ ok bs → Reads (read_signed n) bs z
unfolding read_signed
Reads-signed n z bs h = record {
  on = λ r more v' e.
      let (fits, eb, back) = pack_signed-ok n z bs h in
      let len : length bs ≡ n = length-pack_signed n z bs h in
      let t = (subst (λ k. Reads (take_bytes (pos k)) bs bs) len (Reads-take bs)).on r more v' e in
      record {
        next = t.next;
        runs = rw (t.runs, read_signed, of_be_written n (pattern_of n z) fits eb, back);
        placed = t.placed;
        left = t.left;
      };
}
