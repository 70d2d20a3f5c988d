-- ===== src/Proto/Responses/Vector/RoundTrip.antt =====
-- Reading the answer to a vector read.
use py_xroot_dclient.Proto.Buffer.Split.{unread, IsReader}
use py_xroot_dclient.Proto.Buffer.Advances.{
  Advances, Advances-bind, Advances-take_signed, Advances-take, Advances-pure, Advances-signed,
  Advances-fail, Result-cases,
}
use py_xroot_dclient.Proto.Buffer
use py_xroot_dclient.Proto.Constants.{fhandle_len}
use py_xroot_dclient.Proto.Buffer.Reads.{
  Reads, Reads-bind, Reads-take, Reads-pure, Reads-signed, Took,
}
use py_xroot_dclient.Base.Int.{pos, ℤ, negsuc}
use py_xroot_dclient.Proto.Buffer.{
  pack_signed, pure, remaining, Reader, take_bytes, read_i64, read_i32, parse_with,
}
use py_xroot_dclient.Proto.Responses.Vector.{
  ReadVSegment, segment, segment_body, readv_loop, parse_readv,
}
use py_xroot_dclient.Base.{
  List, length, Bytes, ◌≡◌, ◌∷◌, ◌++◌, [], ℕ, All, arith, ◌≤◌, length-drop, suc, zero, subst, ◌<◌,
  ◌∙◌, ap, sym, ◌+◌, ◌≢◌, refl, inl, inr,
}
use py_xroot_dclient.Errors.{◌>>=◌, Result, ok, >>=-eq-ok, ok-injective, err, stuck}

-- The wire form of a segment, a `readahead_list` header and its data: fhandle[4] rlen[4]
-- roffset[8] data.
unfoldable pub segment_wire : ReadVSegment → Result Bytes
segment_wire s = pack_signed 4 (pos (length s.body)) >>= λ l.
    pack_signed 8 s.offset >>= λ o. ok (s.fhandle ++ (l ++ (o ++ (s.body ++ []))))

unfoldable pub vector_wire : List ReadVSegment → Result Bytes
unfolding segment_wire
vector_wire [] = ok []
vector_wire (s ∷ ss) = segment_wire s >>= λ a. vector_wire ss >>= λ b. ok (a ++ b)

abbrev pub HasHandle : ReadVSegment → Type 0
HasHandle s = length s.fhandle ≡ fhandle_len

Reads-segment :
    (s : ReadVSegment) (bs : Bytes) → HasHandle s → segment_wire s ≡ ok bs → Reads segment bs s
unfolding segment segment_wire
Reads-segment s bs h e =
    let k = λ (l : Bytes).
      pack_signed 8 s.offset >>= λ o. ok (s.fhandle ++ (l ++ (o ++ (s.body ++ [])))) in
    let (l, el, e₁) = >>=-eq-ok (pack_signed 4 (pos (length s.body))) k e in
    let (o, eo, e₂) =
      >>=-eq-ok (pack_signed 8 s.offset) (λ o. ok (s.fhandle ++ (l ++ (o ++ (s.body ++ []))))) e₁ in
    let result =
      λ (body : Bytes). pure (record { fhandle = s.fhandle; offset = s.offset; body = body }) in
    let end =
      Reads-bind (take_bytes (pos (length s.body))) result (Reads-take s.body) (Reads-pure s) in
    let from_offset =
      Reads-bind read_i64 (segment_body s.fhandle (pos (length s.body)))
        (Reads-signed 8 s.offset o eo) end in
    let from_length =
      Reads-bind read_i32 (λ len. Buffer.◌>>=◌ read_i64 (segment_body s.fhandle len))
        (Reads-signed 4 (pos (length s.body)) l el) from_offset in
    let whole =
      Reads-bind (take_bytes (pos fhandle_len))
        (λ fh. Buffer.◌>>=◌ read_i32 (λ len. Buffer.◌>>=◌ read_i64 (segment_body fh len)))
        (subst (λ k. Reads (take_bytes (pos k)) s.fhandle s.fhandle) h (Reads-take s.fhandle))
        from_length in
    subst (λ t. Reads segment t s) (ok-injective (s.fhandle ++ (l ++ (o ++ (s.body ++ [])))) bs e₂)
      whole

remaining-unread : (r : Reader) → remaining r ≡ length (unread r)
unfolding remaining
remaining-unread r = omega (arith, length-drop r.at r.buf)

-- A segment takes its header's 16 bytes at least.
Advances-segment_body :
    (fhandle : Bytes) (len offset : ℤ) → Advances 0 (segment_body fhandle len offset)
unfolding segment_body
Advances-segment_body fhandle (pos n) offset =
    Advances-bind 0 0 (take_bytes (pos n))
      (λ body. pure (record { fhandle = fhandle; offset = offset; body = body }))
      (Advances-take_signed (pos n)) (λ body. Advances-pure _)
Advances-segment_body fhandle (negsuc n) offset = Advances-fail

Advances-segment : Advances 16 segment
unfolding segment
Advances-segment =
    Advances-bind 4 12 (take_bytes (pos fhandle_len))
      (λ fh. Buffer.◌>>=◌ read_i32 (λ len. Buffer.◌>>=◌ read_i64 (segment_body fh len)))
      (Advances-take 4)
      λ fh.
        Advances-bind 4 8 read_i32 (λ len. Buffer.◌>>=◌ read_i64 (segment_body fh len))
          (Advances-signed 4)
          λ len.
            Advances-bind 8 0 read_i64 (segment_body fh len) (Advances-signed 8)
              (Advances-segment_body fh len)

readv_loop_end : (fuel : ℕ) (r : Reader) → remaining r ≡ 0 → readv_loop fuel r ≡ ok ([], r)
unfolding readv_loop
readv_loop_end zero r e = rw e
readv_loop_end (suc fuel) r e = rw e

readv_loop_step :
    (fuel : ℕ) (r r₁ r₂ : Reader) (s : ReadVSegment) (ss : List ReadVSegment)
    → 0 < remaining r
    → segment r ≡ ok (s, r₁)
    → readv_loop fuel r₁ ≡ ok (ss, r₂)
    → readv_loop (suc fuel) r ≡ ok (s ∷ ss, r₂)
unfolding readv_loop
readv_loop_step fuel r r₁ r₂ s ss h e f = ground arith

vector_wire-nil : (bs : Bytes) → vector_wire [] ≡ ok bs → bs ≡ []
unfolding vector_wire
vector_wire-nil bs e = sym (ok-injective [] bs e)

-- The first turn of the loop: what it leaves, and that it got on.
record Turn (r : Reader) (s : ReadVSegment) (ss : List ReadVSegment) : Type 0 where
  later : Bytes
  later_wire : vector_wire ss ≡ ok later
  took : Took segment r s later
  room : remaining took.next + 16 ≤ remaining r

first_turn :
    (s : ReadVSegment) (ss : List ReadVSegment) (bs : Bytes) (r : Reader)
    → HasHandle s
    → vector_wire (s ∷ ss) ≡ ok bs
    → IsReader r
    → unread r ≡ bs
    → Turn r s ss
unfolding vector_wire
first_turn s ss bs r hs e v u =
    let (a, ea, e₁) = >>=-eq-ok (segment_wire s) (λ a. vector_wire ss >>= λ b. ok (a ++ b)) e in
    let (b, eb, e₂) = >>=-eq-ok (vector_wire ss) (λ b. ok (a ++ b)) e₁ in
    let t = (Reads-segment s a hs ea).on r b v (u ∙ sym (ok-injective (a ++ b) bs e₂)) in
    record { later = b; later_wire = eb; took = t; room = Advances-segment.moved r t.next s t.runs }

-- The loop reads exactly the segments that are there, if the fuel is enough.
readv_loop-wire :
    (fuel : ℕ) (ss : List ReadVSegment) (bs : Bytes) (r : Reader)
    → All HasHandle ss
    → vector_wire ss ≡ ok bs
    → length bs ≤ fuel
    → IsReader r
    → unread r ≡ bs
    → (r' : Reader) × (readv_loop fuel r ≡ ok (ss, r'))
readv_loop-wire fuel [] bs r h e enough v u =
    (r, readv_loop_end fuel r (remaining-unread r ∙ ap length (u ∙ vector_wire-nil bs e)))
readv_loop-wire zero (s ∷ ss) bs r (hs, hss) e enough v u =
    let t = first_turn s ss bs r hs e v u in
    absurd (omega (arith, t.room, remaining-unread r, ap length u))
readv_loop-wire (suc fuel) (s ∷ ss) bs r (hs, hss) e enough v u =
    let t = first_turn s ss bs r hs e v u in
    let few : length t.later ≤ fuel = omega (
      arith,
      t.room,
      remaining-unread r,
      ap length u,
      remaining-unread t.took.next,
      ap length t.took.left,
    ) in
    let (r', rest) =
      readv_loop-wire fuel ss t.later t.took.next hss t.later_wire few t.took.placed t.took.left in
    (r', readv_loop_step fuel r t.took.next r' s ss (omega (arith, t.room)) t.took.runs rest)

-- An answer that carries a list of segments, each with a 4-byte handle, is read back as that list.
pub parse_readv-wire :
    (ss : List ReadVSegment) (bs : Bytes)
    → All HasHandle ss
    → vector_wire ss ≡ ok bs
    → parse_readv bs ≡ ok ss
unfolding parse_readv
parse_readv-wire ss bs h e =
    let start : Reader = record { buf = bs; at = 0 } in
    let (r', run) =
      readv_loop-wire (length bs) ss bs start h e (omega arith) (record { within = omega arith })
        refl in
    rw (run, parse_with)

readv_loop-ne-stuck : (fuel : ℕ) (r : Reader) → remaining r ≤ fuel → readv_loop fuel r ≢ err stuck
unfolding readv_loop
readv_loop-ne-stuck zero r h e = ground arith
readv_loop-ne-stuck (suc fuel) r h e = elim (Result-cases (segment r)) [
  | inl ((s, r₁), q) ↦ (elim (Result-cases (readv_loop fuel r₁)) [
    | inl ((ss, r₂), p) ↦ ground (arith, q, p)
    | inr (x, p) ↦
        ground (arith, q, p, readv_loop-ne-stuck fuel r₁, Advances-segment.moved r r₁ s q)
  ])
  | inr (x, q) ↦ ground (arith, q, Advances-segment.ends r)
]

-- On every body the loop comes to an end: the fuel never runs out.
pub parse_readv-ne-stuck : (bs : Bytes) → parse_readv bs ≢ err stuck
unfolding parse_readv
parse_readv-ne-stuck bs e =
    let start : Reader = record { buf = bs; at = 0 } in
    elim (Result-cases (readv_loop (length bs) start)) [
      | inl ((ss, r), q) ↦ ground (arith, q)
      | inr (x, q) ↦
          ground (arith, q, readv_loop-ne-stuck (length bs) start (unfold remaining in omega arith))
    ]
