-- ===== src/Crypto/Der/Parts.antt =====
-- What src/xrd/crypto/der.py takes off the data.
use py_xroot_dclient.Proto.Buffer.{of_be}
use py_xroot_dclient.Base.Cases.{on_bool, on_test}
use py_xroot_dclient.Base.{
  ℕ, Bytes, [], ◌∷◌, zero, suc, ◌+◌, ◌%◌, refl, ◌++◌, ◌≡◌, ◌≤◌, length, ◌≢◌, arith, ltb, ◌==◌, ap,
  length-append, ◌∙◌, sym, take, take-append-drop, length-take, ltb→le, List, subst, false, ◌<◌,
}
use py_xroot_dclient.Crypto.Der.{
  Element, read_length, cut_value, parse_element, parse_loop, parse_all,
}
use py_xroot_dclient.Errors.{Result, ok, err, ◌>>=◌, >>=-eq-ok, stuck, ok-injective}

-- A length field of DER for a number: the number itself, in one byte below 128, or a byte that
-- tells how many follow, one to four, and these, which are the number in base 256.
pub data IsLengthField : Bytes → ℕ → Type 0 where
  short_form : (n : ℕ) → n < 128 → IsLengthField (n ∷ []) n
  long_form :
      (b : ℕ) (bs : Bytes)
      → 128 ≤ b
      → b % 128 ≡ length bs
      → 1 ≤ length bs
      → length bs ≤ 4
      → IsLengthField (b ∷ bs) (of_be 0 bs)

-- The bytes are a length field for the number and what is behind it.
abbrev pub SplitsOff : Bytes → Bytes → ℕ → Type 0
SplitsOff bs rest n = (front : Bytes) × (bs ≡ front ++ rest) × IsLengthField front n

long_field :
    (b : ℕ) (bs : Bytes)
    → ltb b 128 ≡ false
    → (b % 128 == 0) ≡ false
    → ltb 4 (b % 128) ≡ false
    → ltb (length bs) (b % 128) ≡ false
    → IsLengthField (b ∷ take (b % 128) bs) (of_be 0 (take (b % 128) bs))
long_field b bs large some_follow few there =
    let whole : length (take (b % 128) bs) ≡ b % 128 =
      omega (arith, length-take (b % 128) bs, ltb→le (length bs) (b % 128) there) in
    long_form b (take (b % 128) bs) (ground arith) (sym whole) (ground arith) (ground arith)

read_length-split : (bs rest : Bytes) (n : ℕ) → read_length bs ≡ ok (n, rest) → SplitsOff bs rest n
unfolding read_length
read_length-split [] rest n = λ e. cc
read_length-split (b ∷ bs) rest n =
    let P = λ (r : Result (ℕ × Bytes)). r ≡ ok (n, rest) → SplitsOff (b ∷ bs) rest n in
    let count = b % 128 in
    on_test P (ltb b 128)
      (λ small e.
        let same = ok-injective _ _ e in
        (
          b ∷ [],
          ap (λ (r : ℕ × Bytes). b ∷ r.1) same,
          subst (λ (k : ℕ). IsLengthField (b ∷ []) k) (ap (λ (r : ℕ × Bytes). r.0) same)
              (short_form b (ground arith)),
        ))
      (λ large.
        on_test P (count == 0) (λ _ e. cc)
          (λ some_follow.
            on_test P (ltb 4 count) (λ _ e. cc)
              (λ few.
                on_test P (ltb (length bs) count) (λ _ e. cc)
                  (λ there e.
                    let same = ok-injective _ _ e in
                    (
                      b ∷ take count bs,
                      ap (λ (xs : Bytes). b ∷ xs) (sym (take-append-drop count bs))
                          ∙ ap (λ (r : ℕ × Bytes). b ∷ take count bs ++ r.1) same,
                      subst (λ (k : ℕ). IsLengthField (b ∷ take count bs) k)
                          (ap (λ (r : ℕ × Bytes). r.0) same)
                          (long_field b bs large some_follow few there),
                    )))))

cut_value-split :
    (t n : ℕ) (bs rest : Bytes) (e : Element)
    → cut_value t (n, bs) ≡ ok (e, rest)
    → (bs ≡ e.value ++ rest) × (e.tag ≡ t) × (length e.value ≡ n)
unfolding cut_value
cut_value-split t n bs rest e =
    on_test
      (λ (r : Result (Element × Bytes)).
        r ≡ ok (e, rest) → (bs ≡ e.value ++ rest) × (e.tag ≡ t) × (length e.value ≡ n))
      (ltb (length bs) n) (λ _ h. cc)
      (λ there h.
        let same = ok-injective _ _ h in
        (
          sym (take-append-drop n bs) ∙ ap (λ (r : Element × Bytes). r.0.value ++ r.1) same,
          sym (ap (λ (r : Element × Bytes). r.0.tag) same),
          ap (λ (r : Element × Bytes). length r.0.value) (sym same)
              ∙ omega (arith, length-take n bs, ltb→le (length bs) n there),
        ))

-- An element that was read is the bytes that it was read from: its tag, the length field of its
-- value, the value and what is left, in this order. No byte is read twice or skipped.
pub parse_element-split :
    (bs rest : Bytes) (e : Element)
    → parse_element bs ≡ ok (e, rest)
    → (front : Bytes) × (bs ≡ e.tag ∷ front ++ (e.value ++ rest))
      × IsLengthField front (length e.value)
unfolding parse_element
parse_element-split [] rest e = λ h. cc
parse_element-split (t ∷ bs) rest e =
    on_bool
      (λ (r : Result (Element × Bytes)).
        r ≡ ok (e, rest)
        → (front : Bytes) × (t ∷ bs ≡ e.tag ∷ front ++ (e.value ++ rest))
          × IsLengthField front (length e.value))
      (t % 32 == 31) (λ h. cc)
      (λ h.
        let inside = >>=-eq-ok (read_length bs) (cut_value t) h in
        let field = read_length-split bs inside.0.1 inside.0.0 inside.1 in
        let value = cut_value-split t inside.0.0 inside.0.1 rest e inside.2 in
        (
          field.0,
          ap (λ (xs : Bytes). t ∷ xs) field.1
              ∙ ap (λ (xs : Bytes). t ∷ field.0 ++ xs) value.0
              ∙ ap (λ (x : ℕ). x ∷ field.0 ++ (e.value ++ rest)) (sym value.1),
          subst (λ (k : ℕ). IsLengthField field.0 k) (sym value.2) field.2,
        ))

IsLengthField-some : {bs : Bytes} {n : ℕ} → IsLengthField bs n → 1 ≤ length bs
IsLengthField-some (short_form n small) = omega arith
IsLengthField-some (long_form b bs large told some_follow few) = omega arith

parse_element-shorter :
    (bs rest : Bytes) (e : Element) → parse_element bs ≡ ok (e, rest) → length rest + 2 ≤ length bs
parse_element-shorter bs rest e h =
    let parts = parse_element-split bs rest e h in
    omega (
      arith,
      ap length parts.1,
      length-append parts.0 (e.value ++ rest),
      length-append e.value rest,
      IsLengthField-some parts.2,
    )

read_length-ne-stuck : (bs : Bytes) → read_length bs ≢ err stuck
unfolding read_length
read_length-ne-stuck [] = λ h. cc
read_length-ne-stuck (b ∷ bs) =
    let P = λ (r : Result (ℕ × Bytes)). r ≢ err stuck in
    on_bool P (ltb b 128) (λ h. cc)
      (on_bool P (b % 128 == 0) (λ h. cc)
        (on_bool P (ltb 4 (b % 128)) (λ h. cc)
          (on_bool P (ltb (length bs) (b % 128)) (λ h. cc) (λ h. cc))))

cut_value-ne-stuck : (t : ℕ) (r : ℕ × Bytes) → cut_value t r ≢ err stuck
unfolding cut_value
cut_value-ne-stuck t (n, bs) =
    on_bool (λ (r : Result (Element × Bytes)). r ≢ err stuck) (ltb (length bs) n) (λ h. cc)
      (λ h. cc)

>>=-ne-stuck :
    {S T : Type 0} (first : Result S) (next : S → Result T)
    → first ≢ err stuck
    → ((s : S) → first ≡ ok s → next s ≢ err stuck)
    → (first >>= next) ≢ err stuck
>>=-ne-stuck (ok s) next h k = k s refl
>>=-ne-stuck (err x) next h k = λ e. h (cc)

parse_element-ne-stuck : (bs : Bytes) → parse_element bs ≢ err stuck
unfolding parse_element
parse_element-ne-stuck [] = λ h. cc
parse_element-ne-stuck (t ∷ bs) =
    on_bool (λ (r : Result (Element × Bytes)). r ≢ err stuck) (t % 32 == 31) (λ h. cc)
      (>>=-ne-stuck (read_length bs) (cut_value t) (read_length-ne-stuck bs)
        (λ r _. cut_value-ne-stuck t r))

parse_loop-ne-stuck : (fuel : ℕ) (bs : Bytes) → length bs ≤ fuel → parse_loop fuel bs ≢ err stuck
unfolding parse_loop
parse_loop-ne-stuck fuel [] h = λ e. cc
parse_loop-ne-stuck zero (b ∷ bs) h = absurd (omega arith)
parse_loop-ne-stuck (suc fuel) (b ∷ bs) h =
    >>=-ne-stuck (parse_element (b ∷ bs)) _ (parse_element-ne-stuck (b ∷ bs)) (λ r e.
      >>=-ne-stuck (parse_loop fuel r.1) _
        (parse_loop-ne-stuck fuel r.1 (omega (arith, parse_element-shorter (b ∷ bs) r.1 r.0 e)))
        (λ es _ k. cc))

-- `parse_all` ends on all data: each element takes up at least two bytes.
pub parse_all-ne-stuck : (bs : Bytes) → parse_all bs ≢ err stuck
unfolding parse_all
parse_all-ne-stuck bs = parse_loop-ne-stuck (length bs) bs (omega arith)

-- The bytes are the elements', one behind the other, and no more: the tag, the length field of the
-- value, and the value.
abbrev pub IsSpelled : List Element → Bytes → Type 0
IsSpelled [] bs = bs ≡ []
IsSpelled (e ∷ es) bs =
    (front rest : Bytes) × (bs ≡ e.tag ∷ front ++ (e.value ++ rest))
    × IsLengthField front (length e.value)
    × IsSpelled es rest

parse_loop-IsSpelled :
    (fuel : ℕ) (bs : Bytes) (es : List Element) → parse_loop fuel bs ≡ ok es → IsSpelled es bs
unfolding parse_loop
parse_loop-IsSpelled fuel [] es =
    λ h. subst (λ (xs : List Element). IsSpelled xs []) (ok-injective _ _ h) refl
parse_loop-IsSpelled zero (b ∷ bs) es = λ h. cc
parse_loop-IsSpelled (suc fuel) (b ∷ bs) es = λ h.
    let one = >>=-eq-ok (parse_element (b ∷ bs)) _ h in
    let more = >>=-eq-ok (parse_loop fuel one.0.1) _ one.2 in
    let parts = parse_element-split (b ∷ bs) one.0.1 one.0.0 one.1 in
    subst (λ (xs : List Element). IsSpelled xs (b ∷ bs)) (ok-injective _ _ more.2)
      (parts.0, one.0.1, parts.1, parts.2, parse_loop-IsSpelled fuel one.0.1 more.0 more.1)

-- What `parse_all` reads is all of the data, one element behind the other: the tag of each, a
-- length field that tells the length of its value, and the value; no byte is read twice or skipped.
pub parse_all-IsSpelled : (bs : Bytes) (es : List Element) → parse_all bs ≡ ok es → IsSpelled es bs
unfolding parse_all
parse_all-IsSpelled bs es h = parse_loop-IsSpelled (length bs) bs es h
