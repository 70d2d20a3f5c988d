-- ===== src/Tests/Url.antt =====
-- Paths with `..` and slashes to spare.
use py_xroot_dclient.Base.{refl, ◌≡◌}
use py_xroot_dclient.Base.Text.{codes}
use py_xroot_dclient.Url.{
  normalize, normpath, lstrip, ends_slash, keep_component, keep_components, turn_around,
}
use py_xroot_dclient.Proto.Text.{split, join}
use py_xroot_dclient.Url.Normal.{normalize-IsNormal, IsNormal}

normalize_run : normalize (codes "//a/../../b/./c//") ≡ codes "/b/c/"
unfolding normalize normpath lstrip ends_slash keep_component keep_components turn_around split join
normalize_run = refl

normalize-IsNormal_example : IsNormal (normalize (codes "//a/../../b/./c//"))
normalize-IsNormal_example = normalize-IsNormal (codes "//a/../../b/./c//")
