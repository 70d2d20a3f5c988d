-- ===== src/Proto/Responses/Listing/Names.antt =====
-- The names that `parse_dirlist` of src/xrd/proto/responses.py lets through.
use py_xroot_dclient.Base.Cases.{on_bool, on_test}
use py_xroot_dclient.Base.{
  Bytes, [], ◌∷◌, refl, Bool, is_nil, List, ◌≡◌, All, false, ◌||◌, arith, subst, bytes_eq, not,
}
use py_xroot_dclient.Proto.Responses.Listing.{
  checked, DirEntry, plain_entries, stat_entry, stat_entries, parse_dirlist, filled_lines,
  stat_fields, cksum_token, entry_path, starts_with_dot,
}
use py_xroot_dclient.Proto.Text.{has_sep, split, before_sep}
use py_xroot_dclient.Errors.{Result, ok, >>=-eq-ok, ok-injective}

-- One component of a path below the directory: no slash in it, not `..`, not empty.
pub record IsName (n : Bytes) : Type 0 where
  pub no_slash : has_sep 47 n ≡ false
  pub not_dots : bytes_eq n (46 ∷ 46 ∷ []) ≡ false
  pub filled : is_nil n ≡ false

-- An entry of the directory that was asked for.
pub record IsEntryOf (where_from : Bytes) (e : DirEntry) : Type 0 where
  pub named : IsName e.name
  pub parent : e.parent ≡ where_from

filled_lines-IsFilled : (ls : List Bytes) → All (λ (l : Bytes). is_nil l ≡ false) (filled_lines ls)
unfolding filled_lines
filled_lines-IsFilled [] = tt
filled_lines-IsFilled ([] ∷ ls) = filled_lines-IsFilled ls
filled_lines-IsFilled ((b ∷ l) ∷ ls) = (refl, filled_lines-IsFilled ls)

neither : (a b : Bool) → a || b ≡ false → (a ≡ false) × (b ≡ false)
neither a b h = ground arith

checked-IsName : (n m : Bytes) → is_nil n ≡ false → checked n ≡ ok m → (n ≡ m) × IsName n
unfolding checked
checked-IsName n m filled =
    on_test (λ (r : Result Bytes). r ≡ ok m → (n ≡ m) × IsName n)
      (has_sep 47 n || bytes_eq n (46 ∷ 46 ∷ [])) (λ _ e. cc)
      (λ fine e.
        let both = neither _ _ fine in
        (ok-injective n m e, record { no_slash = both.0; not_dots = both.1; filled = filled }))

plain_entries-IsEntryOf :
    (where_from : Bytes) (ls : List Bytes) (es : List DirEntry)
    → All (λ (l : Bytes). is_nil l ≡ false) ls
    → plain_entries where_from ls ≡ ok es
    → All (IsEntryOf where_from) es
unfolding plain_entries
plain_entries-IsEntryOf where_from [] es h e =
    subst (All (IsEntryOf where_from)) (ok-injective [] es e) tt
plain_entries-IsEntryOf where_from (l ∷ ls) es (h, hs) e =
    let first = >>=-eq-ok (checked l) _ e in
    let others = >>=-eq-ok (plain_entries where_from ls) _ first.2 in
    let name = checked-IsName l first.0 h first.1 in
    subst (All (IsEntryOf where_from)) (ok-injective _ es others.2) (
      record { named = subst IsName name.0 name.1; parent = refl },
      plain_entries-IsEntryOf where_from ls others.0 hs others.1,
    )

stat_entry-IsEntryOf :
    (where_from n line : Bytes) (x : DirEntry)
    → is_nil n ≡ false
    → stat_entry where_from n line ≡ ok x
    → IsEntryOf where_from x
unfolding stat_entry
stat_entry-IsEntryOf where_from n line x h e =
    let first = >>=-eq-ok (checked n) _ e in
    let info = >>=-eq-ok (stat_fields (cksum_token line).0 (entry_path where_from n)) _ first.2 in
    subst (IsEntryOf where_from) (ok-injective _ x info.2)
      (record { named = (checked-IsName n first.0 h first.1).1; parent = refl })

stat_entries-IsEntryOf :
    (where_from : Bytes) (ls : List Bytes) (es : List DirEntry)
    → All (λ (l : Bytes). is_nil l ≡ false) ls
    → stat_entries where_from ls ≡ ok es
    → All (IsEntryOf where_from) es
unfolding stat_entries
stat_entries-IsEntryOf where_from [] es h =
    λ e. subst (All (IsEntryOf where_from)) (ok-injective [] es e) tt
stat_entries-IsEntryOf where_from (n ∷ []) es h =
    λ e. subst (All (IsEntryOf where_from)) (ok-injective [] es e) tt
stat_entries-IsEntryOf where_from (n ∷ line ∷ ls) es (h, (_, hs)) =
    on_bool (λ (r : Result (List DirEntry)). r ≡ ok es → All (IsEntryOf where_from) es)
      (bytes_eq n (46 ∷ [])) (stat_entries-IsEntryOf where_from ls es hs)
      (λ e.
        let first = >>=-eq-ok (stat_entry where_from n line) _ e in
        let others = >>=-eq-ok (stat_entries where_from ls) _ first.2 in
        subst (All (IsEntryOf where_from)) (ok-injective _ es others.2) (
          stat_entry-IsEntryOf where_from n line first.0 h first.1,
          stat_entries-IsEntryOf where_from ls others.0 hs others.1,
        ))

-- Whatever the server answers to a directory listing: each entry that `parse_dirlist` returns has a
-- name that is neither empty nor `..` and has no slash, and the directory asked for as its parent.
pub parse_dirlist-IsEntryOf :
    (body where_from : Bytes) (with_stat : Bool) (es : List DirEntry)
    → parse_dirlist body where_from with_stat ≡ ok es
    → All (IsEntryOf where_from) es
unfolding parse_dirlist
parse_dirlist-IsEntryOf body where_from with_stat es =
    let ls = filled_lines (split 10 (before_sep 0 body)) in
    let filled = filled_lines-IsFilled (split 10 (before_sep 0 body)) in
    on_bool (λ (r : Result (List DirEntry)). r ≡ ok es → All (IsEntryOf where_from) es)
      (not with_stat || not (starts_with_dot ls)) (plain_entries-IsEntryOf where_from ls es filled)
      (stat_entries-IsEntryOf where_from ls es filled)
