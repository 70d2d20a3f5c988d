-- ===== src/Url/Normal.antt =====
-- What `_normalize` of src/xrd/url.py makes of a path.
use py_xroot_dclient.Base.Cases.{on_test}
use mathlib.Core.List.{append_assoc, append-nil}
use py_xroot_dclient.Base.{
  ℕ, Bytes, [], ◌∷◌, zero, suc, refl, ◌++◌, is_nil, All, List, ◌==◌, drop, ◌≡◌, ◌&&◌, bytes_eq,
  false, not, ap, ◌∙◌, Bool, true, arith, sym,
}
use py_xroot_dclient.Url.{
  lstrip, ends_slash, keep_component, keep_components, turn_around, normpath, normalize,
}
use py_xroot_dclient.Proto.Text.{split, join, cons_head}

-- A component that stays: neither empty nor `.` nor `..`, and with no slash in it.
pub record IsComponent (c : Bytes) : Type 0 where
  pub filled : is_nil c ≡ false
  pub not_dot : bytes_eq c (46 ∷ []) ≡ false
  pub not_dots : bytes_eq c (46 ∷ 46 ∷ []) ≡ false
  pub no_slash : All (λ (b : ℕ). (b == 47) ≡ false) c

abbrev NoSlash : Bytes → Type 0
NoSlash c = All (λ (b : ℕ). (b == 47) ≡ false) c

cons_head-NoSlash :
    (b : ℕ) (cs : List Bytes) → (b == 47) ≡ false → All NoSlash cs → All NoSlash (cons_head b cs)
cons_head-NoSlash b [] h k = ((h, tt), tt)
cons_head-NoSlash b (c ∷ cs) h (k, ks) = ((h, k), ks)

split-NoSlash : (bs : Bytes) → All NoSlash (split 47 bs)
unfolding split
split-NoSlash [] = (tt, tt)
split-NoSlash (b ∷ bs) =
    on_test (All NoSlash) (b == 47) (λ _. (tt, split-NoSlash bs))
      (λ e. cons_head-NoSlash b (split 47 bs) e (split-NoSlash bs))

drop-IsComponent : (n : ℕ) (cs : List Bytes) → All IsComponent cs → All IsComponent (drop n cs)
drop-IsComponent zero cs h = h
drop-IsComponent (suc n) [] h = tt
drop-IsComponent (suc n) (c ∷ cs) (h, hs) = drop-IsComponent n cs hs

keep_component-IsComponent :
    (kept : List Bytes) (c : Bytes)
    → NoSlash c
    → All IsComponent kept
    → All IsComponent (keep_component kept c)
unfolding keep_component
keep_component-IsComponent kept [] h k = k
keep_component-IsComponent kept (b ∷ bs) h k =
    on_test (All IsComponent) (bytes_eq (b ∷ bs) (46 ∷ [])) (λ _. k)
      (λ dot.
        on_test (All IsComponent) (bytes_eq (b ∷ bs) (46 ∷ 46 ∷ []))
          (λ _. drop-IsComponent 1 kept k)
          (λ dots. (record { filled = refl; not_dot = dot; not_dots = dots; no_slash = h }, k)))

keep_components-IsComponent :
    (kept cs : List Bytes)
    → All NoSlash cs
    → All IsComponent kept
    → All IsComponent (keep_components kept cs)
unfolding keep_components
keep_components-IsComponent kept [] h k = k
keep_components-IsComponent kept (c ∷ cs) (h, hs) k =
    keep_components-IsComponent (keep_component kept c) cs hs
      (keep_component-IsComponent kept c h k)

turn_around-IsComponent :
    (cs done : List Bytes)
    → All IsComponent cs
    → All IsComponent done
    → All IsComponent (turn_around cs done)
unfolding turn_around
turn_around-IsComponent [] done h k = k
turn_around-IsComponent (c ∷ cs) done (h, hs) k = turn_around-IsComponent cs (c ∷ done) hs (h, k)

-- The path of some components, with a slash behind or without.
pub data IsNormal : Bytes → Type 0 where
  normal : (cs : List Bytes) → All IsComponent cs → IsNormal (47 ∷ join 47 cs)
  normal_slash :
      (c : Bytes) (cs : List Bytes)
      → All IsComponent (c ∷ cs)
      → IsNormal ((47 ∷ join 47 (c ∷ cs)) ++ (47 ∷ []))

normpath-IsNormal : (path : Bytes) → IsNormal (normpath path)
unfolding normpath
normpath-IsNormal path = normal (turn_around (keep_components [] (split 47 path)) []) (
    turn_around-IsComponent (keep_components [] (split 47 path)) []
      (keep_components-IsComponent [] (split 47 path) (split-NoSlash path) tt) tt)

add_slash-IsNormal :
    (cs : List Bytes)
    → All IsComponent cs
    → ends_slash (47 ∷ join 47 cs) ≡ false
    → IsNormal ((47 ∷ join 47 cs) ++ (47 ∷ []))
unfolding ends_slash join
add_slash-IsNormal [] h e = cc
add_slash-IsNormal (c ∷ cs) h e = normal_slash c cs h

third : (a b c : Bool) → a && b && not c ≡ true → c ≡ false
third a b c h = ground arith

-- Every normalised path is a slash and components between slashes, none of them empty, `.` or `..`,
-- with a slash behind them or without: no path leads out of the server's root.
pub normalize-IsNormal : (path : Bytes) → IsNormal (normalize path)
unfolding normalize normpath join
normalize-IsNormal [] = normal [] tt
normalize-IsNormal (b ∷ bs) =
    let cs = turn_around (keep_components [] (split 47 (47 ∷ lstrip (b ∷ bs)))) [] in
    let components =
      turn_around-IsComponent (keep_components [] (split 47 (47 ∷ lstrip (b ∷ bs)))) []
        (keep_components-IsComponent [] (split 47 (47 ∷ lstrip (b ∷ bs)))
          (split-NoSlash (47 ∷ lstrip (b ∷ bs))) tt)
        tt in
    on_test IsNormal
      (ends_slash (b ∷ bs) && not (is_nil bs) && not (ends_slash (normpath (47 ∷ lstrip (b ∷ bs)))))
      (λ e. add_slash-IsNormal cs components (
        third (ends_slash (b ∷ bs)) (not (is_nil bs)) (ends_slash (normpath (47 ∷ lstrip (b ∷ bs))))
          e))
      (λ _. normal cs components)

-- Components behind those that are kept.
keep_components-turn_around :
    (kept cs : List Bytes) → All IsComponent cs → keep_components kept cs ≡ turn_around cs kept
unfolding keep_components keep_component turn_around
keep_components-turn_around kept [] h = refl
keep_components-turn_around kept ([] ∷ cs) (h, hs) = let no = h.filled in cc
keep_components-turn_around kept ((b ∷ bs) ∷ cs) (h, hs) =
    rw (h.not_dot, h.not_dots) (keep_components-turn_around ((b ∷ bs) ∷ kept) cs hs)

turn_around_twice :
    (cs done : List Bytes) → turn_around (turn_around cs done) [] ≡ turn_around done cs
unfolding turn_around
turn_around_twice [] done = refl
turn_around_twice (c ∷ cs) done = turn_around_twice cs (c ∷ done)

split_component : (c rest : Bytes) → NoSlash c → split 47 (c ++ (47 ∷ rest)) ≡ c ∷ split 47 rest
unfolding split
split_component [] rest h = refl
split_component (b ∷ bs) rest (h, hs) = rw (h, split_component bs rest hs) refl

split-NoSlash_alone : (c : Bytes) → NoSlash c → split 47 c ≡ c ∷ []
unfolding split
split-NoSlash_alone [] h = refl
split-NoSlash_alone (b ∷ bs) (h, hs) = rw (h, split-NoSlash_alone bs hs) refl

split-join :
    (c : Bytes) (cs : List Bytes) → All IsComponent (c ∷ cs) → split 47 (join 47 (c ∷ cs)) ≡ c ∷ cs
unfolding join
split-join c [] (h, hs) = split-NoSlash_alone c h.no_slash
split-join c (d ∷ cs) (h, hs) =
    split_component c (join 47 (d ∷ cs)) h.no_slash ∙ ap (◌∷◌ c) (split-join d cs hs)

-- The same with a slash behind.
split-join_slash :
    (c : Bytes) (cs : List Bytes)
    → All IsComponent (c ∷ cs)
    → split 47 (join 47 (c ∷ cs) ++ (47 ∷ [])) ≡ (c ∷ cs) ++ ([] ∷ [])
unfolding join split
split-join_slash c [] (h, hs) = split_component c [] h.no_slash
split-join_slash c (d ∷ cs) (h, hs) =
    ap (split 47) (append_assoc c (47 ∷ join 47 (d ∷ cs)) (47 ∷ []))
    ∙ split_component c (join 47 (d ∷ cs) ++ (47 ∷ [])) h.no_slash
    ∙ ap (◌∷◌ c) (split-join_slash d cs hs)

ends_slash-append :
    (xs : Bytes) (y : ℕ) (ys : Bytes) → ends_slash (xs ++ (y ∷ ys)) ≡ ends_slash (y ∷ ys)
unfolding ends_slash
ends_slash-append [] y ys = refl
ends_slash-append (x ∷ []) y ys = refl
ends_slash-append (x ∷ z ∷ xs) y ys = ends_slash-append (z ∷ xs) y ys

ends_slash-NoSlash : (b : ℕ) (bs : Bytes) → NoSlash (b ∷ bs) → ends_slash (b ∷ bs) ≡ false
unfolding ends_slash
ends_slash-NoSlash b [] (h, hs) = h
ends_slash-NoSlash b (c ∷ bs) (h, hs) = ends_slash-NoSlash c bs hs

ends_slash-join :
    (c : Bytes) (cs : List Bytes)
    → All IsComponent (c ∷ cs)
    → ends_slash (47 ∷ join 47 (c ∷ cs)) ≡ false
unfolding join ends_slash
ends_slash-join [] cs (h, hs) = let no = h.filled in cc
ends_slash-join (b ∷ bs) [] (h, hs) = ends_slash-NoSlash b bs h.no_slash
ends_slash-join (b ∷ bs) (d ∷ cs) (h, hs) =
    ends_slash-append (47 ∷ b ∷ bs) 47 (join 47 (d ∷ cs)) ∙ ends_slash-join d cs hs

keep_components-append :
    (kept cs : List Bytes) → keep_components kept (cs ++ ([] ∷ [])) ≡ keep_components kept cs
unfolding keep_components keep_component
keep_components-append kept [] = refl
keep_components-append kept (c ∷ cs) = keep_components-append (keep_component kept c) cs

-- A normal path stands for its components.
normpath-join :
    (c : Bytes) (cs : List Bytes)
    → All IsComponent (c ∷ cs)
    → normpath (47 ∷ join 47 (c ∷ cs)) ≡ 47 ∷ join 47 (c ∷ cs)
unfolding normpath split keep_components keep_component turn_around
normpath-join c cs h =
    ap (λ (parts : List Bytes). 47 ∷ join 47 (turn_around (keep_components [] parts) []))
      (split-join c cs h)
    ∙ ap (λ (kept : List Bytes). 47 ∷ join 47 (turn_around kept []))
        (keep_components-turn_around [] (c ∷ cs) h)
    ∙ ap (λ (parts : List Bytes). 47 ∷ join 47 parts) (turn_around_twice (c ∷ cs) [])

normpath-join_slash :
    (c : Bytes) (cs : List Bytes)
    → All IsComponent (c ∷ cs)
    → normpath (47 ∷ join 47 (c ∷ cs) ++ (47 ∷ [])) ≡ 47 ∷ join 47 (c ∷ cs)
unfolding normpath split keep_components keep_component turn_around
normpath-join_slash c cs h =
    ap (λ (parts : List Bytes). 47 ∷ join 47 (turn_around (keep_components [] parts) []))
      (split-join_slash c cs h)
    ∙ ap (λ (kept : List Bytes). 47 ∷ join 47 (turn_around kept []))
        (keep_components-append [] (c ∷ cs) ∙ keep_components-turn_around [] (c ∷ cs) h)
    ∙ ap (λ (parts : List Bytes). 47 ∷ join 47 parts) (turn_around_twice (c ∷ cs) [])

lstrip-join :
    (c : Bytes) (cs : List Bytes) (rest : Bytes)
    → All IsComponent (c ∷ cs)
    → lstrip (47 ∷ join 47 (c ∷ cs) ++ rest) ≡ join 47 (c ∷ cs) ++ rest
unfolding lstrip join
lstrip-join [] cs rest (h, hs) = let no = h.filled in cc
lstrip-join (b ∷ bs) [] rest (h, hs) = rw (h.no_slash.0) refl
lstrip-join (b ∷ bs) (d ∷ cs) rest (h, hs) = rw (h.no_slash.0) refl

lstrip-join_alone :
    (c : Bytes) (cs : List Bytes)
    → All IsComponent (c ∷ cs)
    → lstrip (47 ∷ join 47 (c ∷ cs)) ≡ join 47 (c ∷ cs)
lstrip-join_alone c cs h =
    ap (λ (bs : Bytes). lstrip (47 ∷ bs)) (sym (append-nil (join 47 (c ∷ cs))))
    ∙ lstrip-join c cs [] h
    ∙ append-nil (join 47 (c ∷ cs))

is_nil-append : (xs : Bytes) (y : ℕ) → is_nil (xs ++ (y ∷ [])) ≡ false
is_nil-append [] y = refl
is_nil-append (x ∷ xs) y = refl

normalize_normal : {path : Bytes} → IsNormal path → normalize path ≡ path
unfolding normalize join ends_slash normpath split keep_components keep_component turn_around lstrip
normalize_normal (normal [] h) = refl
normalize_normal (normal (c ∷ cs) h) =
    rw (ends_slash-join c cs h)
      (ap (λ (bs : Bytes). normpath (47 ∷ bs)) (lstrip-join_alone c cs h) ∙ normpath-join c cs h)
normalize_normal (normal_slash c cs h) =
    let shown = join 47 (c ∷ cs) in
    let path : normpath (47 ∷ lstrip (47 ∷ shown ++ (47 ∷ []))) ≡ 47 ∷ shown =
      ap (λ (bs : Bytes). normpath (47 ∷ bs)) (lstrip-join c cs (47 ∷ []) h)
      ∙ normpath-join_slash c cs h in
    rw (ends_slash-append (47 ∷ shown) 47 [], is_nil-append shown 47, path, ends_slash-join c cs h)
      (ap (λ (bs : Bytes). bs ++ (47 ∷ [])) path)

-- A path that is normalised once more stays as it is.
pub normalize_twice : (path : Bytes) → normalize (normalize path) ≡ normalize path
normalize_twice path = normalize_normal (normalize-IsNormal path)
