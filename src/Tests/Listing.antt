-- ===== src/Tests/Listing.antt =====
-- A listing with a stat line for each name, and one that tries to lead out of the directory.
use py_xroot_dclient.Base.{Bytes, [], ◌∷◌, refl, ◌≡◌, true, some, All}
use py_xroot_dclient.Base.Int.{pos, negsuc}
use py_xroot_dclient.Base.Text.{codes}
use py_xroot_dclient.Proto.Responses.Listing.{
  parse_dirlist, DirEntry, plain_entries, stat_entries, stat_entry, filled_lines, checked,
  stat_fields, stat_of_words, int_of, int_digits, int_step, words, cksum_token, entry_path,
  rstrip_of, lstrip_space, before_last, after_last,
}
use py_xroot_dclient.Proto.Text.{split, before_sep, after_sep, has_sep}
use py_xroot_dclient.Proto.Responses.Listing.Names.{parse_dirlist-IsEntryOf, IsEntryOf}
use py_xroot_dclient.Url.{lower}
use py_xroot_dclient.Errors.{ok, err, protocol_error}

abbrev with_digest : Bytes
with_digest = codes ".\n0 0 0 0\nf\n1 2 3 -4 [ CRC32C:ab ]\n"

abbrev f_entry : DirEntry
f_entry = record {
  name = codes "f";
  parent = codes "/d";
  stat = some (record {
    id = codes "1";
    st_size = pos 2;
    flags = pos 3;
    st_mtime = negsuc 3;
    st_ctime = negsuc 3;
    st_atime = negsuc 3;
    path = codes "/d/f";
  });
  checksum = some (record { algorithm = codes "crc32c"; value = codes "ab" });
}

parse_dirlist_run : parse_dirlist with_digest (codes "/d") true ≡ ok (f_entry ∷ [])
unfolding parse_dirlist plain_entries stat_entries stat_entry filled_lines checked stat_fields
    stat_of_words int_of int_digits int_step words cksum_token entry_path rstrip_of lstrip_space
    before_last after_last split before_sep after_sep has_sep lower
parse_dirlist_run = refl

hostile_run : parse_dirlist (codes "a\n../x\n") (codes "/d") true ≡ err protocol_error
unfolding parse_dirlist plain_entries stat_entries stat_entry filled_lines checked stat_fields
    stat_of_words int_of int_digits int_step words cksum_token entry_path rstrip_of lstrip_space
    before_last after_last split before_sep after_sep has_sep lower
hostile_run = refl

parse_dirlist-IsEntryOf_example : All (IsEntryOf (codes "/d")) (f_entry ∷ [])
unfolding parse_dirlist plain_entries stat_entries stat_entry filled_lines checked stat_fields
    stat_of_words int_of int_digits int_step words cksum_token entry_path rstrip_of lstrip_space
    before_last after_last split before_sep after_sep has_sep lower
parse_dirlist-IsEntryOf_example =
    parse_dirlist-IsEntryOf with_digest (codes "/d") true (f_entry ∷ []) refl
