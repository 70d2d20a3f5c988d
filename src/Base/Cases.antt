-- ===== src/Base/Cases.antt =====
-- Statements about a body that branches, from one for each branch.
use py_xroot_dclient.Base.Tests.{if◌then◌else◌}
use mathlib.Core.Path.{◌≡◌, refl}
use mathlib.Core.Bool.{Bool, true, false}
use mathlib.Core.Option.{Option, none, some}

pub on_option :
    {A R : Type 0} (P : R → Type 0) (o : Option A) {a : R} {f : A → R}
    → P a
    → ((x : A) → P (f x))
    → P (elim o [ none ↦ a | some x ↦ f x ])
on_option P none h k = h
on_option P (some x) h k = k x

pub on_bool :
    {R : Type 0} (P : R → Type 0) (b : Bool) {t f : R} → P t → P f → P (if b then t else f)
on_bool P true h k = h
on_bool P false h k = k

pub on_test :
    {R : Type 0} (P : R → Type 0) (b : Bool) {t f : R}
    → (b ≡ true → P t)
    → (b ≡ false → P f)
    → P (if b then t else f)
on_test P true h k = h refl
on_test P false h k = k refl

pub on_some :
    {A R : Type 0} (P : R → Type 0) (o : Option A) {a : R} {f : A → R}
    → (o ≡ none → P a)
    → ((x : A) → o ≡ some x → P (f x))
    → P (elim o [ none ↦ a | some x ↦ f x ])
on_some P none h k = h refl
on_some P (some x) h k = k x refl
