-- ===== src/Errors.antt =====
-- src/xrd/errors.py: what is raised, as values, and the map from a server's code to a class.
-- Messages are left out, except the text and the path that a server error carries. A text is the
-- byte string of its UTF-8 form.
use py_xroot_dclient.Base.{
  ℕ, List, [], ◌∷◌, Option, none, some, Bytes, ◌==◌, if◌then◌else◌, ◌≡◌, refl, Bool, false, true,
}
use py_xroot_dclient.Base.Int.{ℤ, pos, negsuc}

-- The subclasses of `ServerError`, and `ServerError` itself.
pub data ServerClass : Type 0 where
  generic invalid_argument busy io_error no_space quota permission not_found : ServerClass
  timed_out unsupported not_a_directory is_a_directory exists read_only attr_not_found : ServerClass

-- `struct_error`, `value_error` and `assertion_error` are Python's own. `stuck` is no Python value:
-- it is what a loop on fuel returns when the fuel runs out. `transient_error` is a `TransientError`
-- that no server reports, and `foreign` any exception that is neither the library's nor named here.
pub data Error : Type 0 where
  protocol_error connection_error transient_error authentication_error : Error
  -- size, limit
  too_large : ℕ → ℕ → Error
  os_error unsupported_operation foreign : Error
  struct_error value_error assertion_error stuck : Error
  no_mechanism : List Bytes → List Bytes → Error
  checksum_mismatch : Bytes → Error
  server_error : ServerClass → ℤ → Bytes → Bytes → Error

-- What a body that may raise returns, or what it raises.
pub data Result {ℓ} (S : Type ℓ) : Type ℓ where
  ok : S → Result S
  err : Error → Result S

infixl 5 ◌>>=◌
abbrev pub ◌>>=◌ {ℓ κ} : {S : Type ℓ} {T : Type κ} → Result S → (S → Result T) → Result T
err x >>= next = err x
ok s >>= next = next s

pub ok-injective {ℓ} : {S : Type ℓ} (s t : S) → ok s ≡ ok t → s ≡ t
ok-injective s t e = cc

-- A chain that returned: its first step did, and what follows ran on its value.
pub >>=-eq-ok {ℓ κ} :
    {S : Type ℓ} {T : Type κ} (first : Result S) (next : S → Result T) {t : T}
    → (first >>= next) ≡ ok t
    → (s : S) × (first ≡ ok s) × (next s ≡ ok t)
>>=-eq-ok (err x) next e = cc
>>=-eq-ok (ok s) next e = (s, refl, e)

-- Inversion of a guard that raises.
pub guard-eq-ok {ℓ} :
    {A : Type ℓ} (b : Bool) (e : Error) (m : Result A) {a : A}
    → (if b then err e else m) ≡ ok a
    → (b ≡ false) × (m ≡ ok a)
guard-eq-ok true e m h = cc
guard-eq-ok false e m h = (refl, h)

pub check-eq-ok {ℓ} :
    {A : Type ℓ} (b : Bool) (e : Error) (m : Result A) {a : A}
    → (if b then m else err e) ≡ ok a
    → (b ≡ true) × (m ≡ ok a)
check-eq-ok true e m h = (refl, h)
check-eq-ok false e m h = cc

-- The table `_CODE_CLASSES`.
abbrev pub code_classes : List (ℕ × ServerClass)
code_classes =
    (3000, invalid_argument)
    ∷ (3001, invalid_argument)
    ∷ (3002, invalid_argument)
    ∷ (3006, invalid_argument)
    ∷ (3031, invalid_argument)
    ∷ (3003, busy)
    ∷ (3020, busy)
    ∷ (3024, busy)
    ∷ (3032, busy)
    ∷ (3004, invalid_argument)
    ∷ (3005, io_error)
    ∷ (3007, io_error)
    ∷ (3012, io_error)
    ∷ (3033, io_error)
    ∷ (3008, no_space)
    ∷ (3009, no_space)
    ∷ (3021, quota)
    ∷ (3010, permission)
    ∷ (3030, permission)
    ∷ (3028, permission)
    ∷ (3022, permission)
    ∷ (3023, permission)
    ∷ (3026, invalid_argument)
    ∷ (3011, not_found)
    ∷ (3014, not_found)
    ∷ (3029, not_found)
    ∷ (3034, timed_out)
    ∷ (3035, timed_out)
    ∷ (3013, unsupported)
    ∷ (3015, not_a_directory)
    ∷ (3016, is_a_directory)
    ∷ (3018, exists)
    ∷ (3025, read_only)
    ∷ (3027, attr_not_found)
    ∷ (3017, invalid_argument)
    ∷ []

find_class : List (ℕ × ServerClass) → ℕ → ServerClass
find_class [] code = generic
find_class ((k, c) ∷ rest) code = if k == code then c else find_class rest code

-- `_CODE_CLASSES.get(code, ServerError)`
pub class_of : ℤ → ServerClass
unfolding find_class
class_of (pos code) = find_class code_classes code
class_of (negsuc code) = generic

-- `none` is a plain return, `some e` a raise.
unfoldable pub raise_for_status : ℤ → Bytes → Bytes → Option Error
raise_for_status (pos code) message path =
    if code == 0
    then none
    else if code == 3019
    then some (checksum_mismatch message)
    else some (server_error (class_of (pos code)) (pos code) message path)
raise_for_status (negsuc code) message path =
    some (server_error (class_of (negsuc code)) (negsuc code) message path)

-- `except TransientError`: `ServerTimeoutError` is one too.
unfoldable pub is_transient : Error → Bool
is_transient transient_error = true
is_transient (server_error timed_out code message path) = true
is_transient _ = false

-- `except (XRootDError, ValueError)`: `io.UnsupportedOperation` is a `ValueError`.
unfoldable pub is_caught : Error → Bool
is_caught struct_error = false
is_caught assertion_error = false
is_caught os_error = false
is_caught foreign = false
is_caught stuck = false
is_caught _ = true

-- `except OSError`: a plain `ServerError` is none, and the subclasses are.
unfoldable pub is_os_error : Error → Bool
is_os_error connection_error = true
is_os_error transient_error = true
is_os_error os_error = true
is_os_error unsupported_operation = true
is_os_error (server_error generic code message path) = false
is_os_error (server_error _ code message path) = true
is_os_error _ = false
