-- ===== src/Proto/Responses/Listing.antt =====
-- The text answers of src/xrd/proto/responses.py to stat, statvfs, statx, locate, dirlist and
-- checksum requests. Whitespace and digits are those of ASCII; `decode` leaves these bytes alone.
pub mod Names
use py_xroot_dclient.Base.{
  ℕ, Bytes, [], ◌∷◌, zero, suc, ◌+◌, ◌-◌, ◌*◌, ◌++◌, ◌==◌, ◌||◌, ◌&&◌, leb, none, some, Bool,
  if◌then◌else◌, false, Option, List, is_nil, true, not, bytes_eq,
}
use py_xroot_dclient.Base.Int.{ℤ, pos, negsuc}
use py_xroot_dclient.Base.Text.{codes, member}
use py_xroot_dclient.Url.{lower}
use py_xroot_dclient.Proto.Text.{split, before_sep, after_sep, has_sep, cons_head}
use py_xroot_dclient.Errors.{Result, ok, err, ◌>>=◌, value_error, protocol_error}

abbrev is_space : ℕ → Bool
is_space b = leb 9 b && leb b 13 || leb 28 b && leb b 32

abbrev word_follows : Bytes → Bool
word_follows [] = false
word_follows (b ∷ bs) = not (is_space b)

-- `text.split()`
unfoldable pub words : Bytes → List Bytes
words [] = []
words (b ∷ bs) =
    let rest = words bs in
    if is_space b then rest else if word_follows bs then cons_head b rest else (b ∷ []) ∷ rest

-- One character of a whole number: a digit, or `_` behind a digit.
unfoldable pub int_step : ℕ × Bool → ℕ → Option (ℕ × Bool)
int_step (v, behind_digit) b =
    if leb 48 b && leb b 57
    then some (v * 10 + (b - 48), true)
    else if b == 95 && behind_digit
    then some (v, false)
    else none

unfoldable pub int_digits : ℕ × Bool → Bytes → Option ℕ
int_digits s [] = if s.1 then some s.0 else none
int_digits s (b ∷ bs) = elim (int_step s b) [ none ↦ none | some t ↦ int_digits t bs ]

abbrev negated : ℕ → ℤ
negated zero = pos 0
negated (suc n) = negsuc n

-- `int(text)`, for a text without whitespace around it.
unfoldable pub int_of : Bytes → Result ℤ
int_of [] = err value_error
int_of (b ∷ bs) =
    let number = int_digits (0, false) (if b == 45 || b == 43 then bs else b ∷ bs) in
    elim number [ none ↦ err value_error | some n ↦ ok (if b == 45 then negated n else pos n) ]

pub record StatInfo : Type 0 where
  pub id : Bytes
  pub st_size : ℤ
  pub flags : ℤ
  pub st_mtime : ℤ
  pub st_ctime : ℤ
  pub st_atime : ℤ
  pub path : Bytes

unfoldable pub stat_of_words : List Bytes → Bytes → Result StatInfo
stat_of_words (i ∷ size ∷ flag_bits ∷ modified ∷ more) where_from = int_of modified >>= λ mtime.
    int_of size >>= λ n. int_of flag_bits >>= λ f. ok (record {
      id = i;
      st_size = n;
      flags = f;
      st_mtime = mtime;
      st_ctime = mtime;
      st_atime = mtime;
      path = where_from;
    })
stat_of_words fields where_from = err protocol_error

-- `_stat_fields`
unfoldable pub stat_fields : Bytes → Bytes → Result StatInfo
stat_fields line where_from = stat_of_words (words line) where_from

unfoldable pub parse_stat : Bytes → Bytes → Result StatInfo
parse_stat body where_from = stat_fields (before_sep 0 body) where_from

pub record VfsInfo : Type 0 where
  pub nodes_rw : ℤ
  pub free_rw : ℤ
  pub utilization_rw : ℤ
  pub nodes_staging : ℤ
  pub free_staging : ℤ
  pub utilization_staging : ℤ

unfoldable pub vfs_of_words : List Bytes → Result VfsInfo
vfs_of_words (a ∷ b ∷ c ∷ d ∷ e ∷ f ∷ more) = int_of a >>= λ a'. int_of b >>= λ b'.
    int_of c >>= λ c'. int_of d >>= λ d'. int_of e >>= λ e'. int_of f >>= λ f'. ok (record {
      nodes_rw = a';
      free_rw = b';
      utilization_rw = c';
      nodes_staging = d';
      free_staging = e';
      utilization_staging = f';
    })
vfs_of_words fields = err protocol_error

unfoldable pub parse_statvfs : Bytes → Result VfsInfo
parse_statvfs body = vfs_of_words (words (before_sep 0 body))

-- `parse_statx`: the bytes are the flags.
unfoldable pub parse_statx : Bytes → List ℕ
parse_statx body = body

-- `_checked`
unfoldable pub checked : Bytes → Result Bytes
checked name =
    if has_sep 47 name || bytes_eq name (46 ∷ 46 ∷ []) then err protocol_error else ok name

pub record ChecksumInfo : Type 0 where
  pub algorithm : Bytes
  pub value : Bytes

-- `text.rstrip()`, `text.rstrip("]")` and `text.strip()`
unfoldable pub rstrip_of : (ℕ → Bool) → Bytes → Bytes
rstrip_of f [] = []
rstrip_of f (b ∷ bs) = let rest = rstrip_of f bs in if is_nil rest && f b then [] else b ∷ rest

unfoldable pub lstrip_space : Bytes → Bytes
lstrip_space [] = []
lstrip_space (b ∷ bs) = let rest = lstrip_space bs in if is_space b then rest else b ∷ bs

abbrev pub strip : Bytes → Bytes
strip line = lstrip_space (rstrip_of is_space line)

-- `text.rpartition(sep)[0]` and `[2]`, for a text that has the separator.
unfoldable pub before_last : ℕ → Bytes → Bytes
before_last sep [] = []
before_last sep (b ∷ bs) = let rest = before_last sep bs in if has_sep sep bs then b ∷ rest else []

unfoldable pub after_last : ℕ → Bytes → Bytes
after_last sep [] = []
after_last sep (b ∷ bs) = let rest = after_last sep bs in if has_sep sep bs then rest else bs

abbrev ends_with : ℕ → Bytes → Bool
ends_with c [] = false
ends_with c (b ∷ []) = b == c
ends_with c (a ∷ b ∷ bs) = ends_with c (b ∷ bs)

-- `_cksum_token`
unfoldable pub cksum_token : Bytes → Bytes × Option ChecksumInfo
cksum_token line =
    let rest = rstrip_of is_space (after_last 91 line) in
    let inside = strip (rstrip_of (◌==◌ 93) rest) in
    let algorithm = before_sep 58 inside in
    let digest = after_sep 58 inside in
    if not (has_sep 91 line)
      || not (ends_with 93 rest)
      || not (has_sep 58 inside)
      || is_nil algorithm
    then (line, none)
    else (
      before_last 91 line,
      if is_nil digest || bytes_eq digest (codes "none")
          then none
          else some (record { algorithm = lower algorithm; value = digest }),
    )

pub record DirEntry : Type 0 where
  pub name : Bytes
  pub parent : Bytes
  pub stat : Option StatInfo
  pub checksum : Option ChecksumInfo

-- `[ln for ln in text.split("\\n") if ln]`
unfoldable pub filled_lines : List Bytes → List Bytes
filled_lines [] = []
filled_lines ([] ∷ ls) = filled_lines ls
filled_lines ((b ∷ l) ∷ ls) = (b ∷ l) ∷ filled_lines ls

unfoldable pub plain_entries : Bytes → List Bytes → Result (List DirEntry)
plain_entries where_from [] = ok []
plain_entries where_from (l ∷ ls) = checked l >>= λ n. plain_entries where_from ls >>= λ es.
    ok (record { name = n; parent = where_from; stat = none; checksum = none } ∷ es)

-- `f"{path.rstrip('/')}/{name}" if path else name`
unfoldable pub entry_path : Bytes → Bytes → Bytes
entry_path [] n = n
entry_path (b ∷ bs) n = rstrip_of (◌==◌ 47) (b ∷ bs) ++ (47 ∷ n)

unfoldable pub stat_entry : Bytes → Bytes → Bytes → Result DirEntry
stat_entry where_from n line =
    let token = cksum_token line in
    checked n >>= λ n'. stat_fields token.0 (entry_path where_from n) >>= λ info.
    ok (record { name = n; parent = where_from; stat = some info; checksum = token.1 })

-- The loop over names and stat lines, which leaves out the entries called `.`.
unfoldable pub stat_entries : Bytes → List Bytes → Result (List DirEntry)
stat_entries where_from (n ∷ line ∷ ls) =
    let rest = stat_entries where_from ls in
    if bytes_eq n (46 ∷ [])
    then rest
    else (stat_entry where_from n line >>= λ e. rest >>= λ es. ok (e ∷ es))
stat_entries where_from ls = ok []

-- `lines[:1] == ["."]`
abbrev starts_with_dot : List Bytes → Bool
starts_with_dot [] = false
starts_with_dot (l ∷ ls) = bytes_eq l (46 ∷ [])

unfoldable pub parse_dirlist : Bytes → Bytes → Bool → Result (List DirEntry)
parse_dirlist body where_from with_stat =
    let ls = filled_lines (split 10 (before_sep 0 body)) in
    if not with_stat || not (starts_with_dot ls)
    then plain_entries where_from ls
    else stat_entries where_from ls

pub record LocationInfo : Type 0 where
  pub address : Bytes
  pub type_of : ℕ
  pub access : ℕ

unfoldable pub locations : List Bytes → List LocationInfo
locations [] = []
locations ((t ∷ a ∷ b ∷ bs) ∷ ts) =
    record { address = b ∷ bs; type_of = t; access = a } ∷ locations ts
locations (short ∷ ts) = locations ts

unfoldable pub parse_locate : Bytes → List LocationInfo
parse_locate body = locations (words (before_sep 0 body))

unfoldable pub parse_checksum : Bytes → Result ChecksumInfo
parse_checksum body =
    let line = strip (before_sep 0 body) in
    let digest = after_sep 32 line in
    if is_nil digest
    then err protocol_error
    else ok (record { algorithm = lower (before_sep 32 line); value = lower (strip digest) })
