-- ===== src/Proto/Buffer/Advances.antt =====
-- How far parsers move on: what a loop on fuel needs to end.
use py_xroot_dclient.Proto.Buffer.{◌>>=◌}
use py_xroot_dclient.Base.Int.{ℤ, pos, negsuc}
use py_xroot_dclient.Errors.{Result, ok, Error, err, stuck}
use py_xroot_dclient.Proto.Buffer.{
  read_signed, read_unsigned, fail, pure, take_bytes, remaining, Parser, Reader,
}
use py_xroot_dclient.Base.{ℕ, arith, ◌≡◌, ◌+◌, ◌⊎◌, ◌≤◌, inl, ◌≢◌, inr, refl, ◌∙◌}

-- Where p returns, it has taken n bytes at least; and it never runs out of fuel.
pub record Advances {A : Type 0} (n : ℕ) (p : Parser A) : Type 0 where
  pub moved : (r r' : Reader) (a : A) → p r ≡ ok (a, r') → remaining r' + n ≤ remaining r
  pub ends : (r : Reader) → p r ≢ err stuck

pub Advances-take : (n : ℕ) → Advances n (take_bytes (pos n))
unfolding take_bytes remaining
Advances-take n = record { moved = λ r r' a e. ground arith; ends = λ r e. ground arith }

pub Advances-take_signed : (z : ℤ) → Advances 0 (take_bytes z)
unfolding take_bytes remaining
Advances-take_signed (pos n) = record {
  moved = λ r r' a e. ground arith;
  ends = λ r e. ground arith;
}
Advances-take_signed (negsuc n) = record {
  moved = λ r r' a e. ground arith;
  ends = λ r e. ground arith;
}

pub Advances-unsigned : (n : ℕ) → Advances n (read_unsigned n)
unfolding read_unsigned take_bytes remaining
Advances-unsigned n = record { moved = λ r r' a e. ground arith; ends = λ r e. ground arith }

pub Advances-signed : (n : ℕ) → Advances n (read_signed n)
unfolding read_signed take_bytes remaining
Advances-signed n = record { moved = λ r r' a e. ground arith; ends = λ r e. ground arith }

pub Advances-pure : {A : Type 0} (a : A) → Advances 0 (pure a)
Advances-pure a = record { moved = λ r r' b e. ground arith; ends = λ r e. cc }

pub Advances-fail : {A : Type 0} → Advances 0 (fail {A = A})
Advances-fail = record { moved = λ r r' b e. cc; ends = λ r e. cc }

pub Result-cases {ℓ} :
    {A : Type ℓ} (m : Result A) → ((a : A) × (m ≡ ok a)) ⊎ ((e : Error) × (m ≡ err e))
Result-cases (ok a) = inl (a, refl)
Result-cases (err e) = inr (e, refl)

-- An error is the same at every result type.
err_at :
    {A B : Type 0} (x y : Error)
    → ◌≡◌ {A = Result (B × Reader)} (err x) (err y)
    → ◌≡◌ {A = Result (A × Reader)} (err x) (err y)
err_at x y e = cc

module _ {A B : Type 0} (m n : ℕ) (p : Parser A) (f : A → Parser B) where
  pub Advances-bind : Advances m p → ((a : A) → Advances n (f a)) → Advances (m + n) (p >>= f)
  Advances-bind hp hf = record {
    moved = λ r r' b e. elim (Result-cases (p r)) [
      | inl ((a, mid), q) ↦
          omega (arith, hp.moved r mid a q, (hf a).moved mid r' b (rw (q, ◌>>=◌) at e))
      | inr (x, q) ↦ cc (rw (q, ◌>>=◌) at e)
    ];
    ends = λ r e. elim (Result-cases (p r)) [
      | inl ((a, mid), q) ↦ (hf a).ends mid (rw (q, ◌>>=◌) at e)
      | inr (x, q) ↦ hp.ends r (q ∙ err_at x stuck (rw (q, ◌>>=◌) at e))
    ];
  }
