-- ===== src/Proto/Machine/Framing/Turns.antt =====
-- Turns of the loop of `_parse` on a buffer with more bytes at its end.
use py_xroot_dclient.Proto.Buffer.Advances.{Result-cases}
use py_xroot_dclient.Proto.Constants.{response_hdrlen}
use py_xroot_dclient.Base.Int.{pos, ℤ, is_neg, negsuc}
use py_xroot_dclient.Proto.Machine.Answers.{Trailer, dispatch}
use py_xroot_dclient.Errors.{Result, ok, err, Error}
use py_xroot_dclient.Proto.Frames.{ResponseHeader, decode_header}
use py_xroot_dclient.Proto.Machine.State.{Env, Framer, Machine}
use py_xroot_dclient.Proto.Machine.Framing.{
  after_dispatch, Turn, body_turn, set_trailer, next, wait, stop, trailer_turn, cut, turn,
  header_turn, choose,
}
use py_xroot_dclient.Base.{
  Bytes, ◌++◌, ◌≤◌, ◌≡◌, length, le→ltb, some, arith, length-append, none, take-append, refl,
  drop-append, drop, ℕ, take, suc, Bool-cases, ◌∙◌, ltb, inl, inr, ltb→le, ap, Option, true, subst,
  sym, false, ◌<◌, Option-cases, ltb→lt, zero,
}

abbrev pub append : Bytes → Framer → Framer
append ys f = record f { buffer = f.buffer ++ ys }

-- A turn with more bytes behind it in the buffer.
append_turn : Bytes → Turn → Turn
append_turn ys (next f m) = next (append ys f) m
append_turn ys (wait f m) = wait (append ys f) m
append_turn ys (stop e f m) = stop e (append ys f) m

after_dispatch-append :
    (ys : Bytes) (f : Framer) (r : Result Trailer) (m : Machine)
    → after_dispatch (append ys f) r m ≡ append_turn ys (after_dispatch f r m)
unfolding after_dispatch set_trailer append_turn
after_dispatch-append ys f (ok none) m = refl
after_dispatch-append ys f (ok (some (need, sid))) m = refl
after_dispatch-append ys f (err e) m = refl

module _ (env : Env) (ys : Bytes) where
  -- A turn on a body that is all there.
  body_turn-append :
      (h : ResponseHeader) (f : Framer) (m : Machine)
      → h.dlen ≤ length f.buffer
      → body_turn env h (append ys f) m ≡ append_turn ys (body_turn env h f m)
  unfolding body_turn
  body_turn-append h f m fits =
      rw
        (
          le→ltb (length f.buffer) h.dlen fits,
          le→ltb (length (f.buffer ++ ys)) h.dlen (omega (arith, length-append f.buffer ys)),
          take-append h.dlen f.buffer ys fits,
          drop-append h.dlen f.buffer ys fits,
        )
        (after_dispatch-append ys (record f { buffer = drop h.dlen f.buffer; header = none })
          (dispatch env h (take h.dlen f.buffer) m).0 (dispatch env h (take h.dlen f.buffer) m).1)

  trailer_turn-append :
      (f : Framer) (m : Machine) (n : ℕ)
      → f.need_trailer ≡ pos n
      → n ≤ length f.buffer
      → trailer_turn (append ys f) m ≡ append_turn ys (trailer_turn f m)
  unfolding trailer_turn cut append_turn
  trailer_turn-append f m n e fits = ground (
    arith,
    length-append f.buffer ys,
    take-append n f.buffer ys fits,
    drop-append n f.buffer ys fits,
  )

  -- How a turn on the whole buffer relates to one on the buffer with more bytes: a turn that went
  -- on or raised does the same and leaves those bytes; one that waited has decoded the header at
  -- most, and going on from there or from the start is the same.
  abbrev pub Extends : Framer → Machine → Turn → Type 0
  Extends f m (next f' m') = turn env (append ys f) m ≡ next (append ys f') m'
  Extends f m (wait f' m') = (m' ≡ m) × (turn env (append ys f) m ≡ turn env (append ys f') m')
  Extends f m (stop e f' m') = turn env (append ys f) m ≡ stop e (append ys f') m'

  abbrev Goes : Turn → Type 0
  Goes (wait f m) = ⊥
  Goes _ = Unit {0}

  Extends-next :
      (f : Framer) (m : Machine) (t : Turn)
      → Goes t
      → turn env (append ys f) m ≡ append_turn ys t
      → Extends f m t
  unfolding append_turn
  Extends-next f m (next f' m') g e = e
  Extends-next f m (wait f' m') g e = absurd g
  Extends-next f m (stop x f' m') g e = e

  Extends-subst :
      (f g : Framer) (m : Machine) (t : Turn)
      → turn env (append ys f) m ≡ turn env (append ys g) m
      → Extends g m t
      → Extends f m t
  Extends-subst f g m (next f' m') e h = e ∙ h
  Extends-subst f g m (wait f' m') e h = (h.0, e ∙ h.1)
  Extends-subst f g m (stop x f' m') e h = e ∙ h

  choose_body :
      (h : ResponseHeader) (f : Framer) (m : Machine)
      → choose env (pos 0) (some h) f m ≡ body_turn env h f m
  unfolding choose
  choose_body h f m = refl

  choose_header : (f : Framer) (m : Machine) → choose env (pos 0) none f m ≡ header_turn env f m
  unfolding choose
  choose_header f m = refl

  choose_trailer :
      (n : ℕ) (o : Option ResponseHeader) (f : Framer) (m : Machine)
      → choose env (pos (suc n)) o f m ≡ trailer_turn f m
  unfolding choose
  choose_trailer n o f m = refl

  turn_body :
      (h : ResponseHeader) (f : Framer) (m : Machine)
      → f.need_trailer ≡ pos 0
      → f.header ≡ some h
      → turn env f m ≡ body_turn env h f m
  unfolding turn
  turn_body h f m z e =
      ap (λ (n : ℤ). choose env n f.header f m) z
      ∙ ap (λ (o : Option ResponseHeader). choose env (pos 0) o f m) e
      ∙ choose_body h f m

  turn_header :
      (f : Framer) (m : Machine)
      → f.need_trailer ≡ pos 0
      → f.header ≡ none
      → turn env f m ≡ header_turn env f m
  unfolding turn
  turn_header f m z e =
      ap (λ (n : ℤ). choose env n f.header f m) z
      ∙ ap (λ (o : Option ResponseHeader). choose env (pos 0) o f m) e
      ∙ choose_header f m

  turn_trailer :
      (f : Framer) (m : Machine) (n : ℕ)
      → f.need_trailer ≡ pos (suc n)
      → turn env f m ≡ trailer_turn f m
  unfolding turn
  turn_trailer f m n e = ap (λ (n : ℤ). choose env n f.header f m) e ∙ choose_trailer n f.header f m

  after_dispatch-Goes :
      (f : Framer) (r : Result Trailer) (m : Machine) → Goes (after_dispatch f r m)
  unfolding after_dispatch
  after_dispatch-Goes f (ok t) m = tt
  after_dispatch-Goes f (err e) m = tt

  body_turn-Goes :
      (h : ResponseHeader) (f : Framer) (m : Machine)
      → h.dlen ≤ length f.buffer
      → Goes (body_turn env h f m)
  unfolding body_turn
  body_turn-Goes h f m fits =
      rw (le→ltb (length f.buffer) h.dlen fits)
        (after_dispatch-Goes _ (dispatch env h (take h.dlen f.buffer) m).0 _)

  body_turn_short :
      (h : ResponseHeader) (f : Framer) (m : Machine)
      → ltb (length f.buffer) h.dlen ≡ true
      → body_turn env h f m ≡ wait f m
  unfolding body_turn
  body_turn_short h f m e = rw e

  body_turn-Extends :
      (h : ResponseHeader) (f : Framer) (m : Machine)
      → f.need_trailer ≡ pos 0
      → f.header ≡ some h
      → Extends f m (body_turn env h f m)
  body_turn-Extends h f m z e = elim (Bool-cases (ltb (length f.buffer) h.dlen)) [
    | inl short ↦ subst (Extends f m) (sym (body_turn_short h f m short)) (refl, refl)
    | inr enough ↦
        let fits : h.dlen ≤ length f.buffer = ltb→le (length f.buffer) h.dlen enough in
        Extends-next f m (body_turn env h f m) (body_turn-Goes h f m fits)
          (turn_body h (append ys f) m z e ∙ body_turn-append h f m fits)
  ]

  header_turn_short :
      (f : Framer) (m : Machine)
      → ltb (length f.buffer) response_hdrlen ≡ true
      → header_turn env f m ≡ wait f m
  unfolding header_turn
  header_turn_short f m e = rw e

  header_turn_ok :
      (f : Framer) (m : Machine) (h : ResponseHeader)
      → ltb (length f.buffer) response_hdrlen ≡ false
      → decode_header (take response_hdrlen f.buffer) ≡ ok h
      → header_turn env f m
        ≡ body_turn env h (record f { buffer = drop response_hdrlen f.buffer; header = some h }) m
  unfolding header_turn
  header_turn_ok f m h e q = rw (e, q)

  header_turn_err :
      (f : Framer) (m : Machine) (x : Error)
      → ltb (length f.buffer) response_hdrlen ≡ false
      → decode_header (take response_hdrlen f.buffer) ≡ err x
      → header_turn env f m ≡ stop x f m
  unfolding header_turn
  header_turn_err f m x e q = rw (e, q)

  module _ (f : Framer) (enough : ltb (length f.buffer) response_hdrlen ≡ false) where
    has_header : response_hdrlen ≤ length f.buffer
    has_header = ltb→le (length f.buffer) response_hdrlen enough

    enough-append : ltb (length (f.buffer ++ ys)) response_hdrlen ≡ false
    enough-append =
        le→ltb (length (f.buffer ++ ys)) response_hdrlen
          (omega (arith, length-append f.buffer ys, has_header))

    same_header : take response_hdrlen (f.buffer ++ ys) ≡ take response_hdrlen f.buffer
    same_header = take-append response_hdrlen f.buffer ys has_header

  header_turn-append :
      (f : Framer) (m : Machine) (h : ResponseHeader)
      → ltb (length f.buffer) response_hdrlen ≡ false
      → decode_header (take response_hdrlen f.buffer) ≡ ok h
      → header_turn env (append ys f) m
        ≡ body_turn env h
            (append ys (record f { buffer = drop response_hdrlen f.buffer; header = some h }))
            m
  header_turn-append f m h enough q =
      header_turn_ok (append ys f) m h (enough-append f enough)
        (ap decode_header (same_header f enough) ∙ q)
      ∙ ap (λ (b : Bytes). body_turn env h (record f { buffer = b; header = some h }) m)
          (drop-append response_hdrlen f.buffer ys (has_header f enough))

  header_turn-Extends :
      (f : Framer) (m : Machine)
      → f.need_trailer ≡ pos 0
      → f.header ≡ none
      → Extends f m (header_turn env f m)
  header_turn-Extends f m z e = elim (Bool-cases (ltb (length f.buffer) response_hdrlen)) [
    | inl short ↦ subst (Extends f m) (sym (header_turn_short f m short)) (refl, refl)
    | inr enough ↦ elim (Result-cases (decode_header (take response_hdrlen f.buffer))) [
      | inl (h, q) ↦
          let g : Framer = record f { buffer = drop response_hdrlen f.buffer; header = some h } in
          subst (Extends f m) (sym (header_turn_ok f m h enough q)) (
            Extends-subst f g m (body_turn env h g m)
              (turn_header (append ys f) m z e
                ∙ header_turn-append f m h enough q
                ∙ sym (turn_body h (append ys g) m z refl))
              (body_turn-Extends h g m z refl))
      | inr (x, q) ↦ subst (Extends f m) (sym (header_turn_err f m x enough q)) (
          turn_header (append ys f) m z e
          ∙ header_turn_err (append ys f) m x (enough-append f enough)
              (ap decode_header (same_header f enough) ∙ q))
    ]
  ]

  trailer_turn_short :
      (f : Framer) (m : Machine) (n : ℕ)
      → f.need_trailer ≡ pos n
      → length f.buffer < n
      → trailer_turn f m ≡ wait f m
  unfolding trailer_turn
  trailer_turn_short f m n e h = ground arith

  trailer_turn-Goes :
      (f : Framer) (m : Machine) (n : ℕ)
      → f.need_trailer ≡ pos n
      → n ≤ length f.buffer
      → Goes (trailer_turn f m)
  unfolding trailer_turn
  trailer_turn-Goes f m n e h = elim (Option-cases f.trailer_for) [
    | inl q ↦ ground (arith, q)
    | inr (sid, q) ↦ ground (arith, q)
  ]

  trailer_turn-Extends :
      (f : Framer) (m : Machine) (n : ℕ)
      → f.need_trailer ≡ pos (suc n)
      → Extends f m (trailer_turn f m)
  trailer_turn-Extends f m n e = elim (Bool-cases (ltb (length f.buffer) (suc n))) [
    | inl short ↦
        subst (Extends f m)
          (sym (trailer_turn_short f m (suc n) e (ltb→lt (length f.buffer) (suc n) short)))
          (refl, refl)
    | inr enough ↦
        let fits : suc n ≤ length f.buffer = ltb→le (length f.buffer) (suc n) enough in
        Extends-next f m (trailer_turn f m) (trailer_turn-Goes f m (suc n) e fits)
          (turn_trailer (append ys f) m n e ∙ trailer_turn-append f m (suc n) e fits)
  ]

  -- A framer that does not expect a trailer of negative length.
  pub turn-Extends :
      (f : Framer) (m : Machine) → is_neg f.need_trailer ≡ false → Extends f m (turn env f m)
  unfolding turn
  turn-Extends f m z = by_need f.need_trailer f.header refl refl z
    where
      by_need :
          (n : ℤ) (o : Option ResponseHeader)
          → f.need_trailer ≡ n
          → f.header ≡ o
          → is_neg n ≡ false
          → Extends f m (choose env f.need_trailer f.header f m)
      by_need (pos zero) none e q z =
          subst (Extends f m) (sym (turn_header f m e q)) (header_turn-Extends f m e q)
      by_need (pos zero) (some h) e q z =
          subst (Extends f m) (sym (turn_body h f m e q)) (body_turn-Extends h f m e q)
      by_need (pos (suc n)) o e q z =
          subst (Extends f m) (sym (turn_trailer f m n e)) (trailer_turn-Extends f m n e)
      by_need (negsuc n) o e q z = cc
