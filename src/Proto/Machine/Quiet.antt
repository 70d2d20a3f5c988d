-- ===== src/Proto/Machine/Quiet.antt =====
-- What a session of src/xrd/proto/machine.py has written as long as TLS is still to come: the
-- handshake and kXR_protocol, and nothing else.
use py_xroot_dclient.Proto.Requests.{protocol}
use py_xroot_dclient.Proto.Frames.{handshake, encode}
use py_xroot_dclient.Proto.Machine.Secure.{
  past_login, Follows, needs_tls, before_login, needs_tls-Same,
}
use py_xroot_dclient.Proto.Machine.Exec.{M, continue}
use py_xroot_dclient.Proto.Machine.State.{Machine, State, ready, sid_protocol}
use py_xroot_dclient.Errors.{Result, ok, err}
use py_xroot_dclient.Base.Dict.{get, Dict}
use py_xroot_dclient.Base.{
  refl, Bytes, ◌≡◌, [], ℕ, true, false, ◌++◌, none, ◌⊎◌, subst, sym, some, inl, ◌∙◌, inr, ap,
  Option,
}

-- The bytes of handshakes and of kXR_protocol requests, one behind the other.
pub data IsGreeting : Bytes → Type 0 where
  nothing_said : IsGreeting []
  then_handshake : {bs : Bytes} → IsGreeting bs → IsGreeting (bs ++ handshake)
  then_protocol :
      {bs : Bytes}
      → IsGreeting bs
      → (flags : ℕ) (frame : Bytes) → encode (protocol flags) sid_protocol ≡ ok frame
      → IsGreeting (bs ++ frame)

pub record IsQuiet (m : Machine) : Type 0 where
  pub not_yet : past_login m.state ≡ false
  pub said : IsGreeting m.out
  pub beside : m.out_path ≡ []
  pub waits : m.pending ≡ []

-- Before TLS, if it is needed or not yet known to be.
abbrev pub IsSilent : Machine → Type 0
IsSilent m = m.tls_active ≡ false → (needs_tls m ≡ true) ⊎ (before_login m.state ≡ true) → IsQuiet m

pub Follows-IsSilent :
    (m m' : Machine) → Follows m m' → (IsQuiet m → IsQuiet m') → IsSilent m → IsSilent m'
Follows-IsSilent m m' f q s inactive why = q (s (sym f.same.active ∙ inactive) (earlier why))
  where
    earlier :
        (needs_tls m' ≡ true) ⊎ (before_login m'.state ≡ true)
        → (needs_tls m ≡ true) ⊎ (before_login m.state ≡ true)
    earlier (inl n) = inl (sym (needs_tls-Same m m' f.same) ∙ n)
    earlier (inr b) = inr (f.early b)

-- Once a login was sent, what a method writes does not matter.
pub late-IsSilent :
    (m m' : Machine) → Follows m m' → past_login m.state ≡ true → IsSilent m → IsSilent m'
late-IsSilent m m' f p = Follows-IsSilent m m' f (λ q. let no = q.not_yet in absurd (cc))

pub IsSilent-continue :
    {A B : Type 0} (r : Result A) (f : A → M B) (n : Machine)
    → IsSilent n
    → ((a : A) → IsSilent (f a n).1)
    → IsSilent (continue r f n).1
IsSilent-continue (ok a) f n s t = t a
IsSilent-continue (err e) f n s t = s

-- Nothing is written, and no login sent.
pub IsQuiet-fields :
    (m m' : Machine)
    → past_login m'.state ≡ false
    → m'.out ≡ m.out
    → m'.out_path ≡ m.out_path
    → m'.pending ≡ m.pending
    → IsQuiet m
    → IsQuiet m'
IsQuiet-fields m m' s o p w q = record {
  not_yet = s;
  said = subst IsGreeting (sym o) q.said;
  beside = p ∙ q.beside;
  waits = w ∙ q.waits;
}

pub on_ready_state :
    {R : Type 0} (P : R → Type 0) (s : State) {a b : R}
    → (s ≡ ready → P a)
    → P b
    → P (elim s [ ready ↦ a | _ ↦ b ])
on_ready_state P ready h k = h refl
on_ready_state P _ h k = k

-- A dict that is empty has no entry.
pub get-empty : {V : Type 0} (d : Dict V) (k : ℕ) → d ≡ [] → get d k ≡ none
unfolding get
get-empty d k e = ap (λ x. get x k) e

pub on_none :
    {A R : Type 0} (P : R → Type 0) (o : Option A) {a : R} (f : A → R)
    → o ≡ none
    → P a
    → P (elim o [ none ↦ a | some x ↦ f x ])
on_none P none f e h = h
on_none P (some x) f e h = absurd (cc)
