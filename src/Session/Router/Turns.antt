-- ===== src/Session/Router/Turns.antt =====
-- How long the loop of `Router.execute` of src/xrd/session/router.py goes on, and how it ends.
use py_xroot_dclient.Base.Cases.{on_bool, on_option, on_test}
use mathlib.Core.Option.{some-injective}
use py_xroot_dclient.Session.Router.Requests.{retarget-idempotent}
use py_xroot_dclient.Session.Router.{
  returned, redirect_limit_error, wait_limit_error, other_error, timeout_error, transient_error,
}
use py_xroot_dclient.Base.Int.{pos_part}
use py_xroot_dclient.Base.{
  [], ◌∷◌, refl, ◌++◌, ℕ, none, true, ◌≢◌, ◌<◌, not, ◌||◌, ◌∙◌, subst, ltb→le, ltb, some, Option,
  sym,
}
use py_xroot_dclient.Base.{
  ◌≡◌, Bytes, ℕ, List, ◌++◌, suc, Bool, refl, ◌≤◌, ◌+◌, ◌==◌, arith, [], zero,
}
use py_xroot_dclient.Session.Router.{
  Router, Run, Turn, Answer, Act, Outcome, execute, execute_loop, live_session, open_session,
  fresh_session, set_session, close, follow, drop_session, ask, pause, enough, stuck, asked, slept,
  Dialled, connected, refused, unreachable, answered, redirected, wait_limit, lost, raised,
  retarget, over,
}
use py_xroot_dclient.Session.Identity.{Value}
use py_xroot_dclient.Session.World.{World, close_session, is_closed}
use py_xroot_dclient.Proto.Requests.{Request, idempotent}
use py_xroot_dclient.Proto.Responses.Control.{RedirectInfo}
use py_xroot_dclient.Config.{Config}

-- How often a server was asked.
abbrev pub asks : List Act → ℕ
asks [] = 0
asks (asked u s request a ∷ acts) = suc (asks acts)
asks (slept n ∷ acts) = asks acts

pub asks-append : (before acts : List Act) → asks (before ++ acts) ≡ asks before + asks acts
asks-append [] acts = omega arith
asks-append (asked u s request a ∷ before) acts = omega (arith, asks-append before acts)
asks-append (slept n ∷ before) acts = asks-append before acts

asks-pause : (c : Config) (n : ℕ) → asks (pause c n) ≡ 0
unfolding pause
asks-pause c n = on_bool (λ (acts : List Act). asks acts ≡ 0) (c.retry_backoff == 0) refl refl

-- What a body that looks at the answer gives, one case for each answer.
pub on_answer :
    (P : Run → Type 0) (a : Answer) {on_body : Bytes → Run} {on_target : RedirectInfo → Run}
    {on_wait : Run} {on_lost : Bool → Run} {on_raised : Run}
    → ((body : Bytes) → P (on_body body))
    → ((target : RedirectInfo) → a ≡ redirected target → P (on_target target))
    → P on_wait
    → ((timed_out : Bool) → P (on_lost timed_out))
    → P on_raised
    → P (elim a [
      | answered body ↦ on_body body
      | redirected target ↦ on_target target
      | wait_limit ↦ on_wait
      | lost timed_out ↦ on_lost timed_out
      | raised ↦ on_raised
    ])
on_answer P (answered body) f g h k l = f body
on_answer P (redirected target) f g h k l = g target refl
on_answer P wait_limit f g h k l = h
on_answer P (lost timed_out) f g h k l = k timed_out
on_answer P raised f g h k l = l

-- The router that another is, but for its URL, its session and whether it owns that.
pub record SameSettings (r r' : Router) : Type 0 where
  pub config : r'.config ≡ r.config
  pub reconnect : r'.reconnect ≡ r.reconnect

SameSettings-refl : (r : Router) → SameSettings r r
SameSettings-refl r = record { config = refl; reconnect = refl }

set_session-SameSettings : (r : Router) (d : Dialled) → SameSettings r (set_session r d)
unfolding set_session
set_session-SameSettings r (connected s) = record { config = refl; reconnect = refl }
set_session-SameSettings r (unreachable timed_out) = record { config = refl; reconnect = refl }
set_session-SameSettings r refused = record { config = refl; reconnect = refl }

pub drop_session-SameSettings : (r : Router) (w : World) → SameSettings r (drop_session r w).0
unfolding drop_session
drop_session-SameSettings r w =
    on_option (λ (q : Router × World). SameSettings r q.0) r.session
      (record { config = refl; reconnect = refl }) (λ s. record { config = refl; reconnect = refl })

asks-ask :
    (t : Turn) (request : Request) (d : Dialled) (r : Router) (w : World)
    → asks (ask t request d r w).2 ≤ 1
unfolding ask
asks-ask t request (connected s) r w = omega arith
asks-ask t request (unreachable timed_out) r w = omega arith
asks-ask t request refused r w = omega arith

pub gave_up : (a b c : Bool) → a ≡ true → c ≡ true → (not a || b || not c) ≡ true → b ≡ true
gave_up a b c h k l = ground arith

pub last_attempt : (n limit : ℕ) → n ≤ limit → ltb limit (suc n) ≡ true → suc n ≡ suc limit
last_attempt n limit h k = ground arith

module _ (repr : Value → Bytes) (sha256 : Bytes → Bytes) where
  pub live_session-SameSettings :
      (t : Turn) (r : Router) (w : World) → SameSettings r (live_session repr sha256 t r w).1
  unfolding live_session open_session
  live_session-SameSettings t r w =
      let P = λ (q : Dialled × Router × World). SameSettings r q.1 in
      on_option P r.session (set_session-SameSettings r (fresh_session repr sha256 t r w).0) (λ s.
        on_bool P (is_closed w s)
          (on_bool P r.reconnect
            (set_session-SameSettings r (fresh_session repr sha256 t r (close_session s w)).0)
            (SameSettings-refl r))
          (SameSettings-refl r))

  close-SameSettings :
      (t : Turn) (r : Router) (w : World) → SameSettings r (close repr sha256 t r w).0
  unfolding close
  close-SameSettings t r w =
      let P = λ (q : Router × World). SameSettings r q.0 in
      let same : SameSettings r (record r { session = none; owns = true }) = record {
        config = refl;
        reconnect = refl;
      } in
      on_option P r.session same (λ s. on_bool P r.owns same same)

  pub follow-SameSettings :
      (t : Turn) (target : RedirectInfo) (r : Router) (w : World)
      → SameSettings r (follow repr sha256 t target r w).0
  unfolding follow
  follow-SameSettings t target r w =
      let same = close-SameSettings t r w in
      record { config = same.config; reconnect = same.reconnect }

  execute_loop-asks :
      (fuel : ℕ) (turns : ℕ → Turn) (hops attempts : ℕ) (request : Request) (r : Router) (w : World)
      → asks (execute_loop repr sha256 fuel turns hops attempts request r w).acts ≤ fuel
  unfolding execute_loop
  execute_loop-asks zero turns hops attempts request r w = omega arith
  execute_loop-asks (suc fuel) turns hops attempts request r w =
      let t = turns (hops + attempts) in
      let now = live_session repr sha256 t r w in
      let reply = ask t request now.0 now.1 now.2 in
      let one = asks-ask t request now.0 now.1 now.2 in
      let P = λ (q : Run). asks q.acts ≤ suc fuel in
      on_answer P reply.0 (λ body. omega (arith, one))
        (λ target e.
          let moved = follow repr sha256 t target now.1 reply.1 in
          let rest = retarget target.token request in
          on_bool P (over (suc hops) r.config.redirect_limit) (omega (arith, one)) (
            omega (
              arith,
              one,
              asks-append reply.2
                  (execute_loop repr sha256 fuel turns (suc hops) attempts rest moved.0
                    moved.1).acts,
              execute_loop-asks fuel turns (suc hops) attempts rest moved.0 moved.1,
            )))
        (omega (arith, one))
        (λ timed_out.
          let dropped = drop_session now.1 reply.1 in
          let slept_for = pause r.config (suc attempts) in
          on_bool P
            (not r.reconnect
              || over (suc attempts) r.config.connect_retries
              || not (idempotent request))
            (omega (arith, one))
            (omega (
              arith,
              one,
              asks-append (reply.2 ++ slept_for)
                  (execute_loop repr sha256 fuel turns hops (suc attempts) request dropped.0
                    dropped.1).acts,
              asks-append reply.2 slept_for,
              asks-pause r.config (suc attempts),
              execute_loop-asks fuel turns hops (suc attempts) request dropped.0 dropped.1,
            )))
        (omega (arith, one))

  execute_loop-ends :
      (fuel : ℕ) (turns : ℕ → Turn) (hops attempts : ℕ) (request : Request) (r : Router) (w : World)
      (c : Config)
      → r.config ≡ c
      → hops ≤ pos_part c.redirect_limit
      → attempts ≤ pos_part c.connect_retries
      → pos_part c.redirect_limit + pos_part c.connect_retries < fuel + hops + attempts
      → (execute_loop repr sha256 fuel turns hops attempts request r w).outcome ≢ stuck
  unfolding execute_loop
  execute_loop-ends zero turns hops attempts request r w c e h k l = λ x. omega arith
  execute_loop-ends (suc fuel) turns hops attempts request r w c e h k l =
      let t = turns (hops + attempts) in
      let now = live_session repr sha256 t r w in
      let same = live_session-SameSettings t r w in
      let reply = ask t request now.0 now.1 now.2 in
      let P = λ (q : Run). q.outcome ≢ stuck in
      on_answer P reply.0 (λ body. λ x. cc)
        (λ target _.
          let moved = follow repr sha256 t target now.1 reply.1 in
          let moved_same = follow-SameSettings t target now.1 reply.1 in
          on_test P (over (suc hops) r.config.redirect_limit) (λ _. λ x. cc)
            (λ within.
              execute_loop-ends fuel turns (suc hops) attempts (retarget target.token request)
                moved.0 moved.1 c (moved_same.config ∙ same.config ∙ e)
                (subst (λ (x : Config). suc hops ≤ pos_part x.redirect_limit) e (ltb→le _ _ within))
                k (omega arith)))
        (λ x. cc)
        (λ timed_out.
          let dropped = drop_session now.1 reply.1 in
          let dropped_same = drop_session-SameSettings now.1 reply.1 in
          on_test P
            (not r.reconnect
              || over (suc attempts) r.config.connect_retries
              || not (idempotent request))
            (λ _. on_bool (λ (o : Outcome). o ≢ stuck) timed_out (λ x. cc) (λ x. cc))
            (λ within.
              execute_loop-ends fuel turns hops (suc attempts) request dropped.0 dropped.1 c
                (dropped_same.config ∙ same.config ∙ e) h
                (subst (λ (x : Config). suc attempts ≤ pos_part x.connect_retries) e (ground arith))
                (omega arith)))
        (λ x. cc)

  -- `execute` ends, whatever the network does in each turn, and asks servers at most one time more
  -- often than its limits of redirects and of retries allow together (a negative limit counts as 0).
  pub execute-ends :
      (turns : ℕ → Turn) (request : Request) (r : Router) (w : World)
      → ((execute repr sha256 turns request r w).outcome ≢ stuck)
        × (asks (execute repr sha256 turns request r w).acts
            ≤ suc (pos_part r.config.redirect_limit + pos_part r.config.connect_retries))
  unfolding execute
  execute-ends turns request r w = (
    execute_loop-ends (enough r.config) turns 0 0 request r w r.config refl (omega arith)
        (omega arith) (omega arith),
    execute_loop-asks (enough r.config) turns 0 0 request r w,
  )

  -- What `execute` reports of a lost connection: how often it tried.
  abbrev pub attempts_of : Outcome → Option ℕ
  attempts_of (transient_error n) = some n
  attempts_of (timeout_error n) = some n
  attempts_of (returned body) = none
  attempts_of redirect_limit_error = none
  attempts_of wait_limit_error = none
  attempts_of other_error = none
  attempts_of stuck = none

  pub execute_loop-attempts :
      (fuel : ℕ) (turns : ℕ → Turn) (hops attempts : ℕ) (request : Request) (r : Router) (w : World)
      (c : Config) (n : ℕ)
      → r.config ≡ c
      → r.reconnect ≡ true
      → idempotent request ≡ true
      → attempts ≤ pos_part c.connect_retries
      → attempts_of (execute_loop repr sha256 fuel turns hops attempts request r w).outcome ≡ some n
      → n ≡ suc (pos_part c.connect_retries)
  unfolding execute_loop
  execute_loop-attempts zero turns hops attempts request r w c n e m i k = λ x. cc
  execute_loop-attempts (suc fuel) turns hops attempts request r w c n e m i k =
      let t = turns (hops + attempts) in
      let now = live_session repr sha256 t r w in
      let same = live_session-SameSettings t r w in
      let reply = ask t request now.0 now.1 now.2 in
      let P = λ (q : Run). attempts_of q.outcome ≡ some n → n ≡ suc (pos_part c.connect_retries) in
      on_answer P reply.0 (λ body. λ x. cc)
        (λ target _.
          let moved = follow repr sha256 t target now.1 reply.1 in
          let moved_same = follow-SameSettings t target now.1 reply.1 in
          on_bool P (over (suc hops) r.config.redirect_limit) (λ x. cc)
            (execute_loop-attempts fuel turns (suc hops) attempts (retarget target.token request)
              moved.0 moved.1 c n (moved_same.config ∙ same.config ∙ e)
              (moved_same.reconnect ∙ same.reconnect ∙ m)
              (retarget-idempotent target.token request ∙ i) k))
        (λ x. cc)
        (λ timed_out.
          let dropped = drop_session now.1 reply.1 in
          let dropped_same = drop_session-SameSettings now.1 reply.1 in
          on_test P
            (not r.reconnect
              || over (suc attempts) r.config.connect_retries
              || not (idempotent request))
            (λ over_it.
              let spent =
                subst (λ (x : Config). over (suc attempts) x.connect_retries ≡ true) e
                  (gave_up _ _ _ m i over_it) in
              let last = last_attempt attempts (pos_part c.connect_retries) k spent in
              on_bool
                (λ (o : Outcome). attempts_of o ≡ some n → n ≡ suc (pos_part c.connect_retries))
                timed_out (λ x. sym (some-injective _ _ x) ∙ last)
                (λ x. sym (some-injective _ _ x) ∙ last))
            (λ within.
              execute_loop-attempts fuel turns hops (suc attempts) request dropped.0 dropped.1 c n
                (dropped_same.config ∙ same.config ∙ e)
                (dropped_same.reconnect ∙ same.reconnect ∙ m) i
                (subst (λ (x : Config). suc attempts ≤ pos_part x.connect_retries) e
                  (ground arith))))
        (λ x. cc)
