-- ===== src/Session/Router/Keyed.antt =====
-- Over which connections a router of src/xrd/session/router.py sends, with the pool behind it.
use py_xroot_dclient.Base.Cases.{on_bool, on_some}
use py_xroot_dclient.Base.{
  [], ◌∷◌, refl, ◌++◌, ℕ, Bytes, All, Option, List, ◌≡◌, some, ◌==◌, subst, none, sym, Bool,
  if◌then◌else◌, suc, false, ◌+◌, true, ◌∙◌, not, ◌||◌, zero,
}
use py_xroot_dclient.Session.Router.{
  Router, Run, Turn, Act, execute, execute_loop, live_session, open_session, fresh_session,
  set_session, router_key, retarget, follow, close, drop_session, ask, pause, enough, Dialled,
  asked, slept, connected, refused, unreachable, prepend, over,
}
use py_xroot_dclient.Session.Router.Turns.{
  on_answer, live_session-SameSettings, follow-SameSettings, drop_session-SameSettings,
}
use py_xroot_dclient.Session.Pool.{acquire, release}
use py_xroot_dclient.Session.Pool.Every.{
  Every, Part, part_nil, part_keep, part_skip, acquire-Every, release-Every, bucket_of-Every,
}
use py_xroot_dclient.Session.Pool.History.{acquire-live}
use py_xroot_dclient.Session.Identity.{Value, key_of}
use py_xroot_dclient.Session.World.{World, Key, Bucket, Entry, close_session, is_closed}
use py_xroot_dclient.Proto.Requests.{Request, idempotent}
use py_xroot_dclient.Proto.Responses.Control.{RedirectInfo}
use py_xroot_dclient.Config.{Config}
use py_xroot_dclient.Url.{XRootDUrl}

pub connected-injective : (s t : ℕ) → connected s ≡ connected t → s ≡ t
connected-injective s t e = cc

module _ (repr : Value → Bytes) (sha256 : Bytes → Bytes) (Made : Key → ℕ → Type 0) where
  abbrev AllMade : Key → Bucket → Type 0
  AllMade k b = All (λ (e : Entry). Made k e.1) b

  -- Every idle session was made for the key that it is idle under.
  abbrev pub PoolMade : World → Type 0
  PoolMade w = Every AllMade w.idle

  abbrev SessionMade : Key → Option ℕ → Type 0
  SessionMade k none = Unit
  SessionMade k (some s) = Made k s

  -- The session of a router was made for the router's key.
  abbrev pub RouterMade : Router → Type 0
  RouterMade r = SessionMade (router_key repr sha256 r) r.session

  -- Every request was sent over a session made for the URL that it was sent to.
  abbrev pub ActsMade : Config → List Act → Type 0
  ActsMade c [] = Unit
  ActsMade c (asked u s request a ∷ acts) = Made (key_of repr sha256 u c) s × ActsMade c acts
  ActsMade c (slept n ∷ acts) = ActsMade c acts

  -- What `Session.connect` makes, it makes for the key of its arguments.
  abbrev pub DialsMade : Turn → Type 0
  DialsMade t =
      (u : XRootDUrl) (c : Config) (s : ℕ)
      → t.dial u c ≡ connected s
      → Made (key_of repr sha256 u c) s

  AllMade-Part : (k : Key) (c b : Bucket) → Part c b → AllMade k b → AllMade k c
  AllMade-Part k _ _ part_nil h = h
  AllMade-Part k _ _ (part_keep e p) (h, hs) = (h, AllMade-Part k _ _ p hs)
  AllMade-Part k _ _ (part_skip e p) (h, hs) = AllMade-Part k _ _ p hs

  ActsMade-append :
      (c : Config) (before acts : List Act)
      → ActsMade c before
      → ActsMade c acts
      → ActsMade c (before ++ acts)
  ActsMade-append c [] acts h k = k
  ActsMade-append c (asked u s request a ∷ before) acts (h, hs) k =
      (h, ActsMade-append c before acts hs k)
  ActsMade-append c (slept n ∷ before) acts h k = ActsMade-append c before acts h k

  ActsMade-pause : (c d : Config) (n : ℕ) → ActsMade c (pause d n)
  unfolding pause
  ActsMade-pause c d n = on_bool (ActsMade c) (d.retry_backoff == 0) tt tt

  close_session-PoolMade : (s : ℕ) (w : World) → PoolMade w → PoolMade (close_session s w)
  unfolding close_session
  close_session-PoolMade s w h = h

  -- The session that is current, if there is one, was made for the router's key.
  abbrev Opened : Router → Dialled × World → Type 0
  Opened r d = PoolMade d.1 × ((s : ℕ) → d.0 ≡ connected s → Made (router_key repr sha256 r) s)

  fresh_session-Opened :
      (t : Turn) (r : Router) (w : World)
      → DialsMade t
      → PoolMade w
      → Opened r (fresh_session repr sha256 t r w)
  unfolding fresh_session
  fresh_session-Opened t r w dials h =
      let k = router_key repr sha256 r in
      let got = acquire r.config t.clock k w in
      let pool = acquire-Every AllMade (λ j. tt) AllMade-Part r.config t.clock k w h in
      on_some (Opened r) got.0 (λ _. (pool, λ s e. dials r.url r.config s e))
        (λ s found.
          let made =
            acquire-live r.config t.clock k w s (λ (e : Entry). Made k e.1)
              (bucket_of-Every AllMade w.idle k tt h) found in
          (pool, λ x e. subst (λ (y : ℕ). Made k y) (connected-injective s x e) made.1))

  -- What is so of the dialled session, the router and the pool.
  abbrev Live : Dialled × Router × World → Type 0
  Live q =
      RouterMade q.1
      × PoolMade q.2
      × ((s : ℕ) → q.0 ≡ connected s → Made (router_key repr sha256 q.1) s)

  set_session-Live :
      (r : Router) (d : Dialled) (w : World)
      → RouterMade r
      → Opened r (d, w)
      → Live (d, set_session r d, w)
  unfolding set_session
  set_session-Live r (connected s) w h (pool, made) = (made s refl, pool, made)
  set_session-Live r (unreachable timed_out) w h (pool, made) = (h, pool, made)
  set_session-Live r refused w h (pool, made) = (h, pool, made)

  live_session-Live :
      (t : Turn) (r : Router) (w : World)
      → DialsMade t
      → RouterMade r
      → PoolMade w
      → Live (live_session repr sha256 t r w)
  unfolding live_session open_session
  live_session-Live t r w dials h p = live r.session h
    where
      reopened : (v : World) → PoolMade v → Live (open_session repr sha256 t r v)
      reopened v pool =
          set_session-Live r (fresh_session repr sha256 t r v).0 (fresh_session repr sha256 t r v).1
            h (fresh_session-Opened t r v dials pool)

      live :
          (o : Option ℕ)
          → SessionMade (router_key repr sha256 r) o
          → Live (elim o [
            | none ↦ open_session repr sha256 t r w
            | some s ↦
                if is_closed w s
                then if r.reconnect
                  then open_session repr sha256 t r (close_session s w)
                  else (unreachable false, r, w)
                else (connected s, r, w)
          ])
      live none m = reopened w p
      live (some s) m =
          on_bool Live (is_closed w s)
            (on_bool Live r.reconnect (reopened (close_session s w) (close_session-PoolMade s w p))
              (h, p, λ x e. cc))
            (
              h,
              p,
              λ x e.
                  subst (λ (y : ℕ). Made (router_key repr sha256 r) y) (connected-injective s x e)
                    m,
            )

  ask-Made :
      (t : Turn) (request : Request) (d : Dialled) (r : Router) (w : World) (c : Config)
      → r.config ≡ c
      → Live (d, r, w)
      → PoolMade (ask t request d r w).1 × ActsMade c (ask t request d r w).2
  unfolding ask
  ask-Made t request (connected s) r w c e (h, p, made) = (
    on_bool PoolMade t.closes (close_session-PoolMade s w p) p,
    (subst (λ (x : Config). Made (key_of repr sha256 r.url x) s) e (made s refl), tt),
  )
  ask-Made t request (unreachable timed_out) r w c e (h, p, made) = (p, tt)
  ask-Made t request refused r w c e (h, p, made) = (p, tt)

  -- A router that has let go of its session, and the pool.
  abbrev Left : Router × World → Type 0
  Left q = (q.0.session ≡ none) × PoolMade q.1

  close-Left :
      (t : Turn) (r : Router) (w : World)
      → RouterMade r
      → PoolMade w
      → Left (close repr sha256 t r w)
  unfolding close
  close-Left t r w h p = left r.session h
    where
      k : Key
      k = router_key repr sha256 r

      put : (s : ℕ) → Bool × World
      put s = release r.config t.put_clock t.put_stamp k s w

      left_router : Router
      left_router = record r { session = none; owns = true }

      left :
          (o : Option ℕ)
          → SessionMade k o
          → Left (elim o [
            | none ↦ (left_router, w)
            | some s ↦
                if r.owns
                then (left_router, if (put s).0 then (put s).1 else close_session s (put s).1)
                else (left_router, w)
          ])
      left none m = (refl, p)
      left (some s) m =
          let kept =
            release-Every AllMade (λ j. tt) AllMade-Part r.config t.put_clock t.put_stamp k s w
              (λ b off room made. (m, made)) p in
          on_bool Left r.owns
            (refl, on_bool PoolMade (put s).0 kept (close_session-PoolMade s (put s).1 kept))
            (refl, p)

  follow-Left :
      (t : Turn) (target : RedirectInfo) (r : Router) (w : World)
      → RouterMade r
      → PoolMade w
      → Left (follow repr sha256 t target r w)
  unfolding follow
  follow-Left t target r w h p = close-Left t r w h p

  drop_session-Left : (r : Router) (w : World) → PoolMade w → Left (drop_session r w)
  unfolding drop_session
  drop_session-Left r w p =
      on_some Left r.session (λ e. (e, p)) (λ s _. (refl, close_session-PoolMade s w p))

  Left-RouterMade : (r : Router) → r.session ≡ none → RouterMade r
  Left-RouterMade r e = subst (SessionMade (router_key repr sha256 r)) (sym e) tt

  -- What `execute` leaves, and what it sent.
  abbrev pub RunMade : Config → Run → Type 0
  RunMade c q = RouterMade q.router × PoolMade q.world × ActsMade c q.acts

  RunMade-prepend :
      (c : Config) (before : List Act) (q : Run)
      → ActsMade c before
      → RunMade c q
      → RunMade c (prepend before q)
  RunMade-prepend c before q h (made, pool, acts) =
      (made, pool, ActsMade-append c before q.acts h acts)

  execute_loop-Made :
      (fuel : ℕ) (turns : ℕ → Turn) (hops attempts : ℕ) (request : Request) (r : Router) (w : World)
      (c : Config)
      → r.config ≡ c
      → ((i : ℕ) → DialsMade (turns i))
      → RouterMade r
      → PoolMade w
      → RunMade c (execute_loop repr sha256 fuel turns hops attempts request r w)
  unfolding execute_loop
  execute_loop-Made zero turns hops attempts request r w c e dials h p = (h, p, tt)
  execute_loop-Made (suc fuel) turns hops attempts request r w c e dials h p =
      let t = turns (hops + attempts) in
      let now = live_session repr sha256 t r w in
      let same = live_session-SameSettings repr sha256 t r w in
      let live = live_session-Live t r w (dials (hops + attempts)) h p in
      let reply = ask t request now.0 now.1 now.2 in
      let sent = ask-Made t request now.0 now.1 now.2 c (same.config ∙ e) live in
      let stops : RouterMade now.1 × PoolMade reply.1 × ActsMade c reply.2 =
        (live.0, sent.0, sent.1) in
      on_answer (RunMade c) reply.0 (λ body. stops)
        (λ target _.
          let moved = follow repr sha256 t target now.1 reply.1 in
          let moved_same = follow-SameSettings repr sha256 t target now.1 reply.1 in
          let left = follow-Left t target now.1 reply.1 live.0 sent.0 in
          on_bool (RunMade c) (over (suc hops) r.config.redirect_limit) stops (
            RunMade-prepend c reply.2
              (execute_loop repr sha256 fuel turns (suc hops) attempts
                (retarget target.token request) moved.0 moved.1)
              sent.1
              (execute_loop-Made fuel turns (suc hops) attempts (retarget target.token request)
                moved.0 moved.1 c (moved_same.config ∙ same.config ∙ e) dials
                (Left-RouterMade moved.0 left.0) left.1)))
        stops
        (λ timed_out.
          let dropped = drop_session now.1 reply.1 in
          let dropped_same = drop_session-SameSettings now.1 reply.1 in
          let left = drop_session-Left now.1 reply.1 sent.0 in
          let rested = pause r.config (suc attempts) in
          on_bool (RunMade c)
            (not r.reconnect
              || over (suc attempts) r.config.connect_retries
              || not (idempotent request))
            stops
            (RunMade-prepend c (reply.2 ++ rested)
              (execute_loop repr sha256 fuel turns hops (suc attempts) request dropped.0 dropped.1)
              (ActsMade-append c reply.2 rested sent.1 (ActsMade-pause c r.config (suc attempts)))
              (execute_loop-Made fuel turns hops (suc attempts) request dropped.0 dropped.1 c
                (dropped_same.config ∙ same.config ∙ e) dials (Left-RouterMade dropped.0 left.0)
                left.1)))
        stops

  -- If the router's session and those in the pool were each made for their key, and new connections
  -- are, then this stays so through `execute`, over redirects, retries and the pool, and each request
  -- it sends goes over a session made for the URL it is for and the router's configuration.
  pub execute-Made :
      (turns : ℕ → Turn) (request : Request) (r : Router) (w : World)
      → ((i : ℕ) → DialsMade (turns i))
      → RouterMade r
      → PoolMade w
      → RunMade r.config (execute repr sha256 turns request r w)
  unfolding execute
  execute-Made turns request r w dials h p =
      execute_loop-Made (enough r.config) turns 0 0 request r w r.config refl dials h p
