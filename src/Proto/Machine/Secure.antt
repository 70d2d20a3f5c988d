-- ===== src/Proto/Machine/Secure.antt =====
-- When a session of src/xrd/proto/machine.py is secure: no login goes out before TLS, where the
-- client or the server wants TLS. `Follows` is what most methods do to the attributes that count.
use py_xroot_dclient.Proto.Responses.Bringup.{ProtocolInfo}
use py_xroot_dclient.Proto.Machine.Login.{has_bits, tls_demands}
use py_xroot_dclient.Base.{Bool, ◌≡◌, ◌∙◌, refl, sym, ◌||◌, true, ap, false, List, [], ◌∷◌}
use py_xroot_dclient.Proto.Machine.State.{
  Machine, State, logging_in, authenticating, ready, binding, fresh, closed, tls, failed,
  handshaking, negotiating,
}
use py_xroot_dclient.Errors.{Result, ok, err}
use py_xroot_dclient.Proto.Machine.Exec.{M, continue, ◌>>=◌}

-- The states in which `kXR_login` or `kXR_bind` has been sent.
unfoldable pub past_login : State → Bool
past_login logging_in = true
past_login authenticating = true
past_login ready = true
past_login binding = true
past_login _ = false

-- TLS is the client's policy or the server's demand.
unfoldable pub needs_tls : Machine → Bool
needs_tls m = m.want_tls || has_bits m.protocol_info.flags tls_demands

abbrev pub IsSecure : Machine → Type 0
IsSecure m = needs_tls m ≡ true → past_login m.state ≡ true → m.tls_active ≡ true

pub record Same (m m' : Machine) : Type 0 where
  pub wants : m'.want_tls ≡ m.want_tls
  pub told : m'.protocol_info ≡ m.protocol_info
  pub active : m'.tls_active ≡ m.tls_active

-- The states before the server's answer to `kXR_protocol` is known, and that of the upgrade.
unfoldable pub before_login : State → Bool
before_login fresh = true
before_login handshaking = true
before_login negotiating = true
before_login tls = true
before_login _ = false

pub record Follows (m m' : Machine) : Type 0 where
  pub same : Same m m'
  pub early : before_login m'.state ≡ true → before_login m.state ≡ true
  pub state : past_login m'.state ≡ true → past_login m.state ≡ true

pub Same-refl : (m : Machine) → Same m m
Same-refl m = record { wants = refl; told = refl; active = refl }

pub Same-trans : (m n k : Machine) → Same m n → Same n k → Same m k
Same-trans m n k s t = record {
  wants = t.wants ∙ s.wants;
  told = t.told ∙ s.told;
  active = t.active ∙ s.active;
}

pub Follows-refl : (m : Machine) → Follows m m
Follows-refl m = record { same = Same-refl m; early = λ h. h; state = λ h. h }

pub Follows-trans : (m n k : Machine) → Follows m n → Follows n k → Follows m k
Follows-trans m n k s t = record {
  same = Same-trans m n k s.same t.same;
  early = λ h. s.early (t.early h);
  state = λ h. s.state (t.state h);
}

pub needs_tls-Same : (m m' : Machine) → Same m m' → needs_tls m' ≡ needs_tls m
unfolding needs_tls
needs_tls-Same m m' s =
    ap (λ w. w || has_bits m'.protocol_info.flags tls_demands) s.wants
    ∙ ap (λ (i : ProtocolInfo). m.want_tls || has_bits i.flags tls_demands) s.told

pub Follows-IsSecure : (m m' : Machine) → Follows m m' → IsSecure m → IsSecure m'
Follows-IsSecure m m' f h n p = f.same.active ∙ h (sym (needs_tls-Same m m' f.same) ∙ n) (f.state p)

-- A method that may raise, whatever it returns.
abbrev pub Keeps : {A : Type 0} → M A → Type 0
Keeps c = (m : Machine) → Follows m (c m).1

pub Follows-continue :
    {A B : Type 0} (r : Result A) (f : A → M B) (m n : Machine)
    → Follows m n
    → ((a : A) → Follows n (f a n).1)
    → Follows m (continue r f n).1
Follows-continue (ok a) f m n s t = Follows-trans m n (f a n).1 s (t a)
Follows-continue (err e) f m n s t = s

pub Keeps-bind :
    {A B : Type 0} (c : M A) (f : A → M B) → Keeps c → ((a : A) → Keeps (f a)) → Keeps (c >>= f)
Keeps-bind c f k l m = Follows-continue (c m).0 f m (c m).1 (k m) (λ a. l a (c m).1)

-- Nothing that counts is written.
pub Follows-fields :
    (m m' : Machine)
    → m'.want_tls ≡ m.want_tls
    → m'.protocol_info ≡ m.protocol_info
    → m'.tls_active ≡ m.tls_active
    → m'.state ≡ m.state
    → Follows m m'
Follows-fields m m' w i a s = record {
  same = record { wants = w; told = i; active = a };
  early = λ h. sym (ap before_login s) ∙ h;
  state = λ h. sym (ap past_login s) ∙ h;
}

pub on_list :
    {A R : Type 0} (P : R → Type 0) (xs : List A) {a : R} {f : A → List A → R}
    → P a
    → ((x : A) (ys : List A) → P (f x ys))
    → P (elim xs [ [] ↦ a | x ∷ ys ↦ f x ys ])
on_list P [] h k = h
on_list P (x ∷ ys) h k = k x ys

pub on_ready :
    {R : Type 0} (P : R → Type 0) (s : State) {a b : R}
    → P a
    → P b
    → P (elim s [ ready ↦ a | _ ↦ b ])
on_ready P ready h k = h
on_ready P _ h k = k

pub on_fresh :
    {R : Type 0} (P : R → Type 0) (s : State) {a b : R}
    → (s ≡ fresh → P a)
    → P b
    → P (elim s [ fresh ↦ a | _ ↦ b ])
on_fresh P fresh h k = h refl
on_fresh P _ h k = k

pub on_tls :
    {R : Type 0} (P : R → Type 0) (s : State) {a b : R} → P a → P b → P (elim s [ tls ↦ a | _ ↦ b ])
on_tls P tls h k = h
on_tls P _ h k = k

pub on_ended :
    {R : Type 0} (P : R → Type 0) (s : State) {a b : R}
    → P a
    → P b
    → P (elim s [ closed ↦ a | failed ↦ a | _ ↦ b ])
on_ended P closed h k = h
on_ended P failed h k = h
on_ended P _ h k = k

-- A method that leaves the machine in a state in which no login has been sent.
pub Follows-ends :
    (m m' : Machine)
    → m'.want_tls ≡ m.want_tls
    → m'.protocol_info ≡ m.protocol_info
    → m'.tls_active ≡ m.tls_active
    → past_login m'.state ≡ false
    → (before_login m'.state ≡ true → before_login m.state ≡ true)
    → Follows m m'
Follows-ends m m' w i a s b = record {
  same = record { wants = w; told = i; active = a };
  early = b;
  state = λ h. cc;
}

-- Behind the login only TLS, policy and demand count.
pub Follows-late :
    (m m' : Machine)
    → Same m m'
    → (before_login m'.state ≡ true → before_login m.state ≡ true)
    → past_login m.state ≡ true
    → Follows m m'
Follows-late m m' s b p = record { same = s; early = b; state = λ h. p }

pub IsSecure-continue :
    {A B : Type 0} (r : Result A) (f : A → M B) (n : Machine)
    → IsSecure n
    → ((a : A) → IsSecure (f a n).1)
    → IsSecure (continue r f n).1
IsSecure-continue (ok a) f n s t = t a
IsSecure-continue (err e) f n s t = s
