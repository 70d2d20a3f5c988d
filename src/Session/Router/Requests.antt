-- ===== src/Session/Router/Requests.antt =====
-- How `_retarget` of src/xrd/session/router.py leaves a request as it is.
use py_xroot_dclient.Session.Router.{retarget}
use py_xroot_dclient.Base.{Bytes, refl, ◌≡◌}
use py_xroot_dclient.Proto.Requests.{
  Request, idempotent, protocol, login, auth, ping, end_session, bind, stat, statx, dirlist, locate,
  query, prepare, mkdir, rm, rmdir, mv, symlink, link, readlink, setattr, chmod, truncate, set,
  open_file, close, read, write, sync, readv, writev, clone, pgread, pgwrite, chkpoint, fattr,
  sigver,
}

pub retarget-idempotent :
    (token : Bytes) (request : Request) → idempotent (retarget token request) ≡ idempotent request
unfolding idempotent retarget
retarget-idempotent token (protocol _) = refl
retarget-idempotent token (login _ _ _ _) = refl
retarget-idempotent token (auth _ _) = refl
retarget-idempotent token ping = refl
retarget-idempotent token (end_session _) = refl
retarget-idempotent token (bind _) = refl
retarget-idempotent token (stat _ _ _) = refl
retarget-idempotent token (statx _) = refl
retarget-idempotent token (dirlist _ _) = refl
retarget-idempotent token (locate _ _) = refl
retarget-idempotent token (query _ _ _) = refl
retarget-idempotent token (prepare _ _ _ _ _) = refl
retarget-idempotent token (mkdir _ _ _) = refl
retarget-idempotent token (rm _) = refl
retarget-idempotent token (rmdir _) = refl
retarget-idempotent token (mv _ _) = refl
retarget-idempotent token (symlink _ _) = refl
retarget-idempotent token (link _ _) = refl
retarget-idempotent token (readlink _) = refl
retarget-idempotent token (setattr _ _ _ _ _ _) = refl
retarget-idempotent token (chmod _ _) = refl
retarget-idempotent token (truncate _ _ _) = refl
retarget-idempotent token (set _) = refl
retarget-idempotent token (open_file _ _ _) = refl
retarget-idempotent token (close _) = refl
retarget-idempotent token (read _ _ _ _) = refl
retarget-idempotent token (write _ _ _ _) = refl
retarget-idempotent token (sync _) = refl
retarget-idempotent token (readv _ _) = refl
retarget-idempotent token (writev _ _) = refl
retarget-idempotent token (clone _ _) = refl
retarget-idempotent token (pgread _ _ _ _ _) = refl
retarget-idempotent token (pgwrite _ _ _ _ _) = refl
retarget-idempotent token (chkpoint _ _ _ _) = refl
retarget-idempotent token (fattr _ _ _ _ _) = refl
retarget-idempotent token (sigver _ _ _ _ _) = refl
