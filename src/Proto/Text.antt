-- ===== src/Proto/Text.antt =====
-- The string operations that the decoders use, on byte strings. Each of them cuts at an ASCII
-- character, so it is the same before and after `decode("utf-8", "replace")`.
use py_xroot_dclient.Base.{ℕ, Bytes, List, ◌∷◌, Bool, false, if◌then◌else◌, ◌++◌, ◌==◌, [], ◌||◌}

-- `s.split(sep, 1)[0]`, `s.partition(sep)[0]`
unfoldable pub before_sep : ℕ → Bytes → Bytes
before_sep sep [] = []
before_sep sep (b ∷ bs) = if b == sep then [] else b ∷ before_sep sep bs

-- `s.partition(sep)[2]`
unfoldable pub after_sep : ℕ → Bytes → Bytes
after_sep sep [] = []
after_sep sep (b ∷ bs) = if b == sep then bs else after_sep sep bs

-- `sep in s`
unfoldable pub has_sep : ℕ → Bytes → Bool
has_sep sep [] = false
has_sep sep (b ∷ bs) = b == sep || has_sep sep bs

abbrev pub cons_head : ℕ → List Bytes → List Bytes
cons_head b [] = (b ∷ []) ∷ []
cons_head b (p ∷ ps) = (b ∷ p) ∷ ps

-- `s.split(sep)`
unfoldable pub split : ℕ → Bytes → List Bytes
split sep [] = [] ∷ []
split sep (b ∷ bs) = let parts = split sep bs in if b == sep then [] ∷ parts else cons_head b parts

-- `sep.join(parts)`
unfoldable pub join : ℕ → List Bytes → Bytes
join sep [] = []
join sep (p ∷ []) = p
join sep (p ∷ (q ∷ ps)) = p ++ (sep ∷ join sep (q ∷ ps))
