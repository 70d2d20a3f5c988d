-- ===== src/Session/Router/Idempotent.antt =====
-- What `Router.execute` of src/xrd/session/router.py never does twice.
use py_xroot_dclient.Base.Cases.{on_bool, on_test}
use py_xroot_dclient.Session.Router.Requests.{retarget-idempotent}
use py_xroot_dclient.Base.{
  [], ◌∷◌, ◌++◌, ℕ, ◌≡◌, List, Bytes, Bool, ◌&&◌, ◌<◌, false, not, suc, ◌+◌, ◌||◌, true, arith, sym,
  ◌∙◌, zero,
}
use py_xroot_dclient.Session.Router.{
  Router, Run, Turn, Answer, Act, execute, execute_loop, live_session, retarget, follow, ask,
  enough, Dialled, asked, slept, redirected, connected, refused, unreachable, over,
}
use py_xroot_dclient.Session.Router.Turns.{
  on_answer, live_session-SameSettings, follow-SameSettings,
}
use py_xroot_dclient.Session.Identity.{Value}
use py_xroot_dclient.Session.World.{World}
use py_xroot_dclient.Proto.Requests.{Request, idempotent}
use py_xroot_dclient.Proto.Responses.Control.{RedirectInfo}

abbrev IsRedirect : Answer → Type 0
IsRedirect a = (target : RedirectInfo) × (a ≡ redirected target)

-- Every request but the last was answered by a redirect, and no connection was lost before it.
abbrev pub OneAttempt : List Act → Type 0
OneAttempt [] = Unit
OneAttempt (asked u s request a ∷ []) = Unit
OneAttempt (asked u s request a ∷ b ∷ acts) = IsRedirect a × OneAttempt (b ∷ acts)
OneAttempt (slept n ∷ acts) = n < n

-- A request that may be repeated over a new connection.
abbrev pub may_repeat : Router → Request → Bool
may_repeat r request = r.reconnect && idempotent request

ask-OneAttempt :
    (t : Turn) (request : Request) (d : Dialled) (r : Router) (w : World)
    → OneAttempt (ask t request d r w).2
unfolding ask
ask-OneAttempt t request (connected s) r w = tt
ask-OneAttempt t request (unreachable timed_out) r w = tt
ask-OneAttempt t request refused r w = tt

ask-redirected :
    (t : Turn) (request : Request) (d : Dialled) (r : Router) (w : World) (target : RedirectInfo)
    (acts : List Act)
    → (ask t request d r w).0 ≡ redirected target
    → OneAttempt acts
    → OneAttempt ((ask t request d r w).2 ++ acts)
unfolding ask
ask-redirected t request (connected s) r w target [] e h = tt
ask-redirected t request (connected s) r w target (a ∷ acts) e h = ((target, e), h)
ask-redirected t request (unreachable timed_out) r w target acts e h = h
ask-redirected t request refused r w target acts e h = h

once_only : (a b c : Bool) → a && c ≡ false → (not a || b || not c) ≡ true
once_only a b c h = ground arith

module _ (repr : Value → Bytes) (sha256 : Bytes → Bytes) where
  execute_loop-OneAttempt :
      (fuel : ℕ) (turns : ℕ → Turn) (hops attempts : ℕ) (request : Request) (r : Router) (w : World)
      → may_repeat r request ≡ false
      → OneAttempt (execute_loop repr sha256 fuel turns hops attempts request r w).acts
  unfolding execute_loop
  execute_loop-OneAttempt zero turns hops attempts request r w h = tt
  execute_loop-OneAttempt (suc fuel) turns hops attempts request r w h =
      let t = turns (hops + attempts) in
      let now = live_session repr sha256 t r w in
      let reply = ask t request now.0 now.1 now.2 in
      let once = ask-OneAttempt t request now.0 now.1 now.2 in
      let P = λ (q : Run). OneAttempt q.acts in
      on_answer P reply.0 (λ body. once)
        (λ target e.
          let moved = follow repr sha256 t target now.1 reply.1 in
          let rest = retarget target.token request in
          let same = live_session-SameSettings repr sha256 t r w in
          let moved_same = follow-SameSettings repr sha256 t target now.1 reply.1 in
          let h' : may_repeat moved.0 rest ≡ false =
            rw (moved_same.reconnect, same.reconnect, retarget-idempotent target.token request) h in
          on_bool P (over (suc hops) r.config.redirect_limit) once (
            ask-redirected t request now.0 now.1 now.2 target _ e
              (execute_loop-OneAttempt fuel turns (suc hops) attempts rest moved.0 moved.1 h')))
        once
        (λ timed_out.
          on_test P
            (not r.reconnect
              || over (suc attempts) r.config.connect_retries
              || not (idempotent request))
            (λ _. once)
            (λ repeats.
              let clash = sym (once_only r.reconnect _ (idempotent request) h) ∙ repeats in cc))
        once

  -- A request that is not idempotent, or that is made through a router that must not reconnect, is
  -- sent again only after a redirect: once a connection is lost under it, it is not repeated.
  pub execute-OneAttempt :
      (turns : ℕ → Turn) (request : Request) (r : Router) (w : World)
      → may_repeat r request ≡ false
      → OneAttempt (execute repr sha256 turns request r w).acts
  unfolding execute
  execute-OneAttempt turns request r w h =
      execute_loop-OneAttempt (enough r.config) turns 0 0 request r w h
