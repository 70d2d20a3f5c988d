-- ===== src/Crypto/Sigver/Levels.antt =====
-- What the security levels cover.
use py_xroot_dclient.Proto.Constants.{
  kxr_locate, kxr_1strequest, kxr_secpedantic, kxr_close, kxr_clone, kxr_stat, kxr_dirlist,
  kxr_secstandard,
}
use py_xroot_dclient.Crypto.Sigver.{is_signed, elem, signed_opcodes}
use py_xroot_dclient.Base.{
  ℕ, List, ◌≤◌, ◌∷◌, ◌≡◌, true, [], arith, All, false, Bool-cases, ◌<◌, refl, ◌==◌, inl, subst, sym,
  ==_iff, inr,
}
use py_xroot_dclient.Proto.Requests.{symlink, link, readlink, setattr, opcode, signed, Request}

elem-All : (P : ℕ → Type 0) (a : ℕ) (xs : List ℕ) → elem a xs ≡ true → All P xs → P a
unfolding elem
elem-All P a [] e h = cc
elem-All P a (x ∷ xs) e (p, ps) = elim (Bool-cases (a == x)) [
  | inl eq ↦ subst P (sym ((==_iff a x).0 eq)) p
  | inr ne ↦ elem-All P a xs (rw ne at e) ps
]

-- The opcodes that the protocol itself defines.
abbrev Defined : ℕ → Type 0
Defined a = (kxr_1strequest ≤ a) × (a ≤ kxr_clone)

signed_opcodes-Defined : (a : ℕ) → elem a signed_opcodes ≡ true → Defined a
signed_opcodes-Defined a e = elem-All Defined a signed_opcodes e (omega arith)

abbrev intense_opcodes : List ℕ
intense_opcodes = kxr_close ∷ kxr_dirlist ∷ kxr_locate ∷ kxr_stat ∷ []

intense_opcodes-Defined : (a : ℕ) → elem a intense_opcodes ≡ true → Defined a
intense_opcodes-Defined a e = elem-All Defined a intense_opcodes e (omega arith)

-- Without overrides, a level up to the highest that the protocol names covers every opcode that a
-- lower level covers.
pub is_signed_monotone :
    (opcode low high : ℕ)
    → low ≤ high
    → high ≤ kxr_secpedantic
    → is_signed opcode low [] ≡ true
    → is_signed opcode high [] ≡ true
unfolding is_signed
is_signed_monotone opcode low high h top e =
    ground (arith, signed_opcodes-Defined opcode, intense_opcodes-Defined opcode)

-- At the standard level, and with no per-opcode override, the signer covers a request that is not
-- a vendor extension exactly if its class is marked `signed`.
pub is_signed-signed :
    (r : Request) → opcode r < 3500 → is_signed (opcode r) kxr_secstandard [] ≡ signed r
unfolding is_signed opcode signed elem
is_signed-signed (symlink _ _) h = absurd (omega arith)
is_signed-signed (link _ _) h = absurd (omega arith)
is_signed-signed (readlink _) h = absurd (omega arith)
is_signed-signed (setattr _ _ _ _ _ _) h = absurd (omega arith)
is_signed-signed _ h = refl

-- A vendor extension is not signed by default at any level, though its class is marked `signed`.
pub vendor_unsigned :
    (r : Request) (level : ℕ)
    → 3500 ≤ opcode r
    → (signed r ≡ true) × (is_signed (opcode r) level [] ≡ false)
unfolding is_signed opcode signed elem
vendor_unsigned (symlink _ _) level h = (refl, ground arith)
vendor_unsigned (link _ _) level h = (refl, ground arith)
vendor_unsigned (readlink _) level h = (refl, ground arith)
vendor_unsigned (setattr _ _ _ _ _ _) level h = (refl, ground arith)
vendor_unsigned _ level h = absurd (omega arith)
