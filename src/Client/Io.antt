-- ===== src/Client/Io.antt =====
-- Methods that change an object and may raise, as functions on its state, and what they leave.
use py_xroot_dclient.Base.{Bool, true, false, if◌then◌else◌, ◌≡◌, refl, subst}
use py_xroot_dclient.Errors.{Result, ok, err, Error, ok-injective}

abbrev pub Io : Type 0 → Type 0 → Type 0
Io S A = S → Result A × S

unfoldable pub pure : {S A : Type 0} → A → Io S A
pure a s = (ok a, s)

unfoldable pub raise : {S A : Type 0} → Error → Io S A
raise e s = (err e, s)

unfoldable pub state : {S : Type 0} → Io S S
state s = (ok s, s)

unfoldable pub modify : {S : Type 0} → (S → S) → Io S (Unit {0})
modify f s = (ok tt, f s)

unfoldable pub lift : {S A : Type 0} → Result A → Io S A
lift r s = (r, s)

abbrev pub after_step : {S A B : Type 0} → Result A × S → (A → Io S B) → Result B × S
after_step (ok a, s) k = k a s
after_step (err e, s) k = (err e, s)

infixl 5 ◌>>=◌ ◌>>◌
unfoldable pub ◌>>=◌ : {S A B : Type 0} → Io S A → (A → Io S B) → Io S B
◌>>=◌ m k s = after_step (m s) k

abbrev pub ◌>>◌ : {S A B : Type 0} → Io S A → Io S B → Io S B
m >> k = m >>= λ _. k

abbrev pub handled :
    {S A : Type 0} → Result A × S → (Error → Bool) → (Error → Io S A) → Result A × S
handled (ok a, s) caught k = (ok a, s)
handled (err e, s) caught k = if caught e then k e s else (err e, s)

-- `try: m` and `except`, for the exceptions that are caught.
unfoldable pub try_except : {S A : Type 0} → Io S A → (Error → Bool) → (Error → Io S A) → Io S A
try_except m caught k s = handled (m s) caught k

-- What holds of a value that is returned, and of an exception that is raised, with the state left.
abbrev pub Ends : {S A : Type 0} → (A → S → Type 0) → (Error → S → Type 0) → Result A × S → Type 0
Ends Q E (ok a, s) = Q a s
Ends Q E (err e, s) = E e s

pub record Triple {S A : Type 0} (P : S → Type 0) (m : Io S A) (Q : A → S → Type 0)
    (E : Error → S → Type 0) : Type 0 where
  pub ends : (s : S) → P s → Ends Q E (m s)

module _ {S : Type 0} {P : S → Type 0} {E : Error → S → Type 0} where
  pub on_pure :
      {A : Type 0} {Q : A → S → Type 0} (a : A) → ((s : S) → P s → Q a s) → Triple P (pure a) Q E
  unfolding pure
  on_pure a h = record { ends = h }

  pub on_raise :
      {A : Type 0} {Q : A → S → Type 0} (e : Error)
      → ((s : S) → P s → E e s)
      → Triple P (raise e) Q E
  unfolding raise
  on_raise e h = record { ends = h }

  pub on_modify :
      {Q : Unit {0} → S → Type 0} (f : S → S)
      → ((s : S) → P s → Q tt (f s))
      → Triple P (modify f) Q E
  unfolding modify
  on_modify f h = record { ends = h }

  -- The state that is read is the one that holds.
  pub on_state : Triple P state (λ t s. P s × (t ≡ s)) E
  unfolding state
  on_state = record { ends = λ s p. (p, refl) }

  pub on_lift :
      {A : Type 0} {Q : A → S → Type 0} (r : Result A)
      → ((a : A) (s : S) → P s → r ≡ ok a → Q a s)
      → ((e : Error) (s : S) → P s → r ≡ err e → E e s)
      → Triple P (lift r) Q E
  unfolding lift
  on_lift (ok a) h k = record { ends = λ s p. h a s p refl }
  on_lift (err e) h k = record { ends = λ s p. k e s p refl }

module _ {S A B : Type 0} where
  Ends-after_step :
      (Q : A → S → Type 0) (R : B → S → Type 0) (E : Error → S → Type 0) (r : Result A × S)
      (k : A → Io S B)
      → Ends Q E r
      → ((a : A) (s : S) → Q a s → Ends R E (k a s))
      → Ends R E (after_step r k)
  Ends-after_step Q R E (ok a, s) k h step = step a s h
  Ends-after_step Q R E (err e, s) k h step = h

  -- A chain: what the first step leaves is what the second starts from.
  pub chain :
      {P : S → Type 0} {Q : A → S → Type 0} {R : B → S → Type 0} {E : Error → S → Type 0}
      {m : Io S A} {k : A → Io S B}
      → Triple P m Q E
      → ((a : A) → Triple (Q a) (k a) R E)
      → Triple P (m >>= k) R E
  unfolding ◌>>=◌
  chain {Q} {R} {E} {m} {k} first next = record {
    ends = λ s p. Ends-after_step Q R E (m s) k (first.ends s p) λ a t q. (next a).ends t q;
  }

module _ {S A : Type 0} where
  Ends-handled :
      (Q : A → S → Type 0) (D E : Error → S → Type 0) (r : Result A × S) (caught : Error → Bool)
      (k : Error → Io S A)
      → Ends Q D r
      → ((e : Error) (s : S) → D e s → caught e ≡ false → E e s)
      → ((e : Error) (s : S) → D e s → caught e ≡ true → Ends Q E (k e s))
      → Ends Q E (handled r caught k)
  Ends-handled Q D E (ok a, s) caught k h pass catch = h
  Ends-handled Q D E (err e, s) caught k h pass catch = on_caught (caught e) refl
    where
      on_caught : (b : Bool) → caught e ≡ b → Ends Q E (if b then k e s else (err e, s))
      on_caught true c = catch e s h c
      on_caught false c = pass e s h c

  pub guarded :
      {P : S → Type 0} {Q : A → S → Type 0} {D : Error → S → Type 0} {E : Error → S → Type 0}
      {m : Io S A} {caught : Error → Bool} {k : Error → Io S A}
      → Triple P m Q D
      → ((e : Error) (s : S) → D e s → caught e ≡ false → E e s)
      → ((e : Error) → caught e ≡ true → Triple (D e) (k e) Q E)
      → Triple P (try_except m caught k) Q E
  unfolding try_except
  guarded {Q} {D} {E} {m} {caught} {k} body pass catch = record {
    ends = λ s p.
        Ends-handled Q D E (m s) caught k (body.ends s p) pass λ e t d c. (catch e c).ends t d;
  }

  Ends-weaken :
      (Q R : A → S → Type 0) (D E : Error → S → Type 0) (r : Result A × S)
      → ((a : A) (s : S) → Q a s → R a s)
      → ((e : Error) (s : S) → D e s → E e s)
      → Ends Q D r
      → Ends R E r
  Ends-weaken Q R D E (ok a, s) f g h = f a s h
  Ends-weaken Q R D E (err e, s) f g h = g e s h

  pub weaken :
      {P : S → Type 0} {Q R : A → S → Type 0} {D E : Error → S → Type 0} {m : Io S A}
      → ((a : A) (s : S) → Q a s → R a s)
      → ((e : Error) (s : S) → D e s → E e s)
      → Triple P m Q D
      → Triple P m R E
  weaken {Q} {R} {D} {E} {m} f g body = record {
    ends = λ s p. Ends-weaken Q R D E (m s) f g (body.ends s p);
  }

  pub before :
      {P O : S → Type 0} {Q : A → S → Type 0} {E : Error → S → Type 0} {m : Io S A}
      → ((s : S) → O s → P s)
      → Triple P m Q E
      → Triple O m Q E
  before f body = record { ends = λ s o. body.ends s (f s o) }

  pub on_either :
      {P : S → Type 0} {Q : A → S → Type 0} {E : Error → S → Type 0} {m k : Io S A} (b : Bool)
      → (b ≡ true → Triple P m Q E)
      → (b ≡ false → Triple P k Q E)
      → Triple P (if b then m else k) Q E
  on_either true f g = f refl
  on_either false f g = g refl

  -- A condition that the state before does not bear on.
  pub given :
      {X : Type 0} {P : S → Type 0} {Q : A → S → Type 0} {E : Error → S → Type 0} {m : Io S A}
      → (X → Triple P m Q E)
      → Triple (λ s. P s × X) m Q E
  given f = record { ends = λ s p. (f p.1).ends s p.0 }

  Ends-ok :
      (Q : A → S → Type 0) (E : Error → S → Type 0) (r : Result A × S) {a : A}
      → Ends Q E r
      → r.0 ≡ ok a
      → Q a r.1
  Ends-ok Q E (ok b, s) {a} h e = subst (λ (c : A). Q c s) (ok-injective b a e) h
  Ends-ok Q E (err x, s) h e = cc

  -- What a triple says of a run that returned.
  pub returned_of :
      {P : S → Type 0} {Q : A → S → Type 0} {E : Error → S → Type 0} {m : Io S A}
      → Triple P m Q E
      → (s : S) → P s
      → {a : A} → (m s).0 ≡ ok a
      → Q a (m s).1
  returned_of {Q} {E} {m} t s p e = Ends-ok Q E (m s) (t.ends s p) e

  Ends-returns :
      (Q : A → S → Type 0) (r : Result A × S)
      → Ends Q (λ e s. ⊥) r
      → (a : A) × (r.0 ≡ ok a) × Q a r.1
  Ends-returns Q (ok a, s) h = (a, refl, h)
  Ends-returns Q (err e, s) h = absurd h

  -- A run that cannot raise returns.
  pub sure_of :
      {P : S → Type 0} {Q : A → S → Type 0} {m : Io S A}
      → Triple P m Q (λ e s. ⊥)
      → (s : S) → P s
      → (a : A) × ((m s).0 ≡ ok a) × Q a (m s).1
  sure_of {Q} {m} t s p = Ends-returns Q (m s) (t.ends s p)

  Ends-any : (r : Result A × S) → Ends (λ a s. Unit) (λ e s. Unit) r
  Ends-any (ok a, s) = tt
  Ends-any (err e, s) = tt

  pub no_claim : {P : S → Type 0} (m : Io S A) → Triple P m (λ a s. Unit) (λ e s. Unit)
  no_claim m = record { ends = λ s p. Ends-any (m s) }

  Ends-err :
      (Q : A → S → Type 0) (E : Error → S → Type 0) (r : Result A × S) {e : Error}
      → Ends Q E r
      → r.0 ≡ err e
      → E e r.1
  Ends-err Q E (ok a, s) h q = cc
  Ends-err Q E (err x, s) {e} h q = let same : x ≡ e = cc in subst (λ (y : Error). E y s) same h

  -- What a triple says of a run that raised.
  pub raised_of :
      {P : S → Type 0} {Q : A → S → Type 0} {E : Error → S → Type 0} {m : Io S A}
      → Triple P m Q E
      → (s : S) → P s
      → {e : Error} → (m s).0 ≡ err e
      → E e (m s).1
  raised_of {Q} {E} {m} t s p q = Ends-err Q E (m s) (t.ends s p) q
