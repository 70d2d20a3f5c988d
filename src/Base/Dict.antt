-- ===== src/Base/Dict.antt =====
-- Python's `dict` with number keys, in insertion order: an update keeps an entry's place, a new
-- key goes to the end.
use Prim.Native.Nat.{ℕ, suc, ◌-◌, ◌≤◌}
use mathlib.Core.Path.{◌≡◌, refl}
use mathlib.Core.Bool.{false}
use mathlib.Core.Option.{Option, none, some}
use mathlib.Core.List.{List, [], ◌∷◌}
use native.Mathlib.Omega.{arith}
use py_xroot_dclient.Base.Tests.{◌==◌, if◌then◌else◌}
use py_xroot_dclient.Base.Lists.{count, length}

abbrev pub Dict : Type 0 → Type 0
Dict V = List (ℕ × V)

module _ {V : Type 0} where
  -- d.get(k)
  unfoldable pub get : Dict V → ℕ → Option V
  get [] k = none
  get ((j, v) ∷ d) k = if j == k then some v else get d k

  -- d[k] = v
  unfoldable pub put : Dict V → ℕ → V → Dict V
  put [] k v = (k, v) ∷ []
  put ((j, w) ∷ d) k v = let rest = put d k v in if j == k then (j, v) ∷ d else (j, w) ∷ rest

  -- d.pop(k, None), del d[k]
  unfoldable pub remove : Dict V → ℕ → Dict V
  remove [] k = []
  remove ((j, v) ∷ d) k = let rest = remove d k in if j == k then d else (j, v) ∷ rest

  abbrev pub keys : Dict V → List ℕ
  keys [] = []
  keys ((k, v) ∷ d) = k ∷ keys d

  pub get-put :
      (d : Dict V) (k j : ℕ) (v : V) → get (put d k v) j ≡ (if k == j then some v else get d j)
  unfolding get put
  get-put [] k j v = refl
  get-put ((i, w) ∷ d) k j v = ground (arith, get-put d k j v)

  -- A key that is there stands once more often than without it.
  pub count-remove :
      (d : Dict V) (k s : ℕ)
      → count s (keys (remove d k)) ≡ (if k == s then count s (keys d) - 1 else count s (keys d))
  unfolding remove
  count-remove [] k s = ground arith
  count-remove ((i, w) ∷ d) k s = ground (arith, count-remove d k s)

  pub get-count : (d : Dict V) (k : ℕ) (v : V) → get d k ≡ some v → 1 ≤ count k (keys d)
  unfolding get
  get-count [] k v h = ground arith
  get-count ((i, w) ∷ d) k v h = ground (arith, get-count d k v)

  pub get-none-count : (d : Dict V) (k : ℕ) → get d k ≡ none → count k (keys d) ≡ 0
  unfolding get
  get-none-count [] k h = refl
  get-none-count ((i, w) ∷ d) k h = ground (arith, get-none-count d k)

  pub count-put :
      (d : Dict V) (k s : ℕ) (v : V)
      → get d k ≡ none
      → count s (keys (put d k v)) ≡ (if k == s then suc (count s (keys d)) else count s (keys d))
  unfolding get put
  count-put [] k s v h = ground arith
  count-put ((i, w) ∷ d) k s v h = ground (arith, count-put d k s v)

  -- Writing a key that is there keeps the keys.
  pub count-put_old :
      (d : Dict V) (k s : ℕ) (v w : V)
      → get d k ≡ some w
      → count s (keys (put d k v)) ≡ count s (keys d)
  unfolding get put
  count-put_old [] k s v w h = ground arith
  count-put_old ((i, u) ∷ d) k s v w h = ground (arith, count-put_old d k s v w)

  pub length-remove :
      (d : Dict V) (k : ℕ) (v : V) → get d k ≡ some v → suc (length (remove d k)) ≡ length d
  unfolding get remove
  length-remove [] k v h = ground arith
  length-remove ((i, w) ∷ d) k v h = ground (arith, length-remove d k v)

  pub get-remove_other : (d : Dict V) (k j : ℕ) → (k == j) ≡ false → get (remove d k) j ≡ get d j
  unfolding get remove
  get-remove_other [] k j h = refl
  get-remove_other ((i, w) ∷ d) k j h = ground (arith, get-remove_other d k j)
