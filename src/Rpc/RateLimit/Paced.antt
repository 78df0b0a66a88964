-- ===== src/Rpc/RateLimit/Paced.antt =====
-- About the bounds of src/rpc/rate-limit.ts, over any sequence of calls.
use lp_monitor.Prelude.{
  ℕ, ◌==◌, ◌≤◌, ◌<◌, leb, max, ◌≡◌, refl, Bool, true, false, not, Bool-cases, inl, inr, Option,
  none, some, List, [], ◌∷◌, length, length-select, ok, arith,
}
use lp_monitor.Rpc.RateLimit.{
  RateLimiter, create_limiter, relax_if_idle, penalize, defer_slot, succeed, try_acquire, take_slot,
  enter, cancel, release, hand_over,
}

-- What other code does with a limiter between two calls.
pub data Action : Type 0 where
  penalized : (now : ℕ) → Action
  deferred : (now ms : ℕ) → Action
  succeeded : Action
  relaxed : (now : ℕ) → Action
  acquired : (now : ℕ) → Action
  entered canceled : (ticket : ℕ) → Action
  left : (released : Bool) → Action

abbrev pub or_same : RateLimiter → Option RateLimiter → RateLimiter
or_same l none = l
or_same l (some next) = next

abbrev pub act : Action → RateLimiter → RateLimiter
act (Action.penalized now) l = penalize now l
act (Action.deferred now ms) l = defer_slot now ms l
act Action.succeeded l = succeed l
act (Action.relaxed now) l = relax_if_idle now l
act (Action.acquired now) l = or_same l (try_acquire now l)
act (Action.entered ticket) l = (enter ticket l).0
act (Action.canceled ticket) l = cancel ticket l
act (Action.left released) l = (release released l).0

abbrev pub run_actions : List Action → RateLimiter → RateLimiter
run_actions [] l = l
run_actions (a ∷ actions) l = run_actions actions (act a l)

-- The spacing is never below the configured one nor above it and two seconds, a penalty is at most
-- thirty seconds, fewer than three successes wait for a recovery step, no more callers are active
-- than allowed, and one waits only while all places are taken.
pub record IsPaced (l : RateLimiter) : Type 0 where
  pub floor : l.base_interval_ms ≤ l.effective_interval_ms
  pub ceiling : l.effective_interval_ms ≤ max l.base_interval_ms 2000
  pub cooldown : l.cooldown_delay_ms ≤ 30000
  pub recovery : l.successes < 3
  pub places : l.active ≤ l.max_concurrent
  pub queue : 0 < length l.waiters → l.active ≡ l.max_concurrent

create_limiter-IsPaced :
    (calls secs places : ℕ) (l : RateLimiter) → create_limiter calls secs places ≡ ok l → IsPaced l
unfolding create_limiter
create_limiter-IsPaced calls secs places l e = ground arith

relax_if_idle-IsPaced : (now : ℕ) (l : RateLimiter) → IsPaced l → IsPaced (relax_if_idle now l)
unfolding relax_if_idle
relax_if_idle-IsPaced now l p = ground arith

penalize-IsPaced : (now : ℕ) (l : RateLimiter) → IsPaced l → IsPaced (penalize now l)
unfolding penalize
penalize-IsPaced now l p =
    let q = relax_if_idle-IsPaced now l p in
    record {
      floor = omega (arith, q.floor);
      ceiling = omega (arith, q.ceiling);
      cooldown = omega arith;
      recovery = omega arith;
      places = q.places;
      queue = q.queue;
    }

succeed-IsPaced : (l : RateLimiter) → IsPaced l → IsPaced (succeed l)
unfolding succeed
succeed-IsPaced l p = ground arith

try_acquire-IsPaced :
    (now : ℕ) (l : RateLimiter) → IsPaced l → IsPaced (or_same l (try_acquire now l))
unfolding try_acquire take_slot
try_acquire-IsPaced now l p = ground arith

enter-IsPaced : (ticket : ℕ) (l : RateLimiter) → IsPaced l → IsPaced (enter ticket l).0
unfolding enter
enter-IsPaced ticket l p = elim (Bool-cases (leb l.max_concurrent l.active)) [
  | inl full ↦ rw full (record {
    floor = p.floor;
    ceiling = p.ceiling;
    cooldown = p.cooldown;
    recovery = p.recovery;
    places = p.places;
    queue = λ h. ground (arith, p.places);
  })
  | inr free ↦ rw free (record {
    floor = p.floor;
    ceiling = p.ceiling;
    cooldown = p.cooldown;
    recovery = p.recovery;
    places = ground arith;
    queue = λ h. ground (arith, p.queue h);
  })
]

cancel-IsPaced : (ticket : ℕ) (l : RateLimiter) → IsPaced l → IsPaced (cancel ticket l)
unfolding cancel
cancel-IsPaced ticket l p = record {
  floor = p.floor;
  ceiling = p.ceiling;
  cooldown = p.cooldown;
  recovery = p.recovery;
  places = p.places;
  queue = λ h. p.queue (omega (arith, h, length-select (λ w. not (w == ticket)) l.waiters));
}

hand_over-IsPaced :
    (l : RateLimiter) (ws : List ℕ) → l.waiters ≡ ws → IsPaced l → IsPaced (hand_over l ws)
hand_over-IsPaced l [] e p = record {
  floor = p.floor;
  ceiling = p.ceiling;
  cooldown = p.cooldown;
  recovery = p.recovery;
  places = omega (arith, p.places);
  queue = λ h. absurd (ground (arith, e));
}
hand_over-IsPaced l (w ∷ ws) e p = record {
  floor = p.floor;
  ceiling = p.ceiling;
  cooldown = p.cooldown;
  recovery = p.recovery;
  places = p.places;
  queue = λ h. p.queue (rw e (omega arith));
}

release-IsPaced : (released : Bool) (l : RateLimiter) → IsPaced l → IsPaced (release released l).0
unfolding release
release-IsPaced true l p = p
release-IsPaced false l p = hand_over-IsPaced l l.waiters refl p

act-IsPaced : (a : Action) (l : RateLimiter) → IsPaced l → IsPaced (act a l)
unfolding defer_slot
act-IsPaced (Action.penalized now) l p = penalize-IsPaced now l p
act-IsPaced (Action.deferred now ms) l p = ground arith
act-IsPaced Action.succeeded l p = succeed-IsPaced l p
act-IsPaced (Action.relaxed now) l p = relax_if_idle-IsPaced now l p
act-IsPaced (Action.acquired now) l p = try_acquire-IsPaced now l p
act-IsPaced (Action.entered ticket) l p = enter-IsPaced ticket l p
act-IsPaced (Action.canceled ticket) l p = cancel-IsPaced ticket l p
act-IsPaced (Action.left released) l p = release-IsPaced released l p

run_actions-keeps :
    (actions : List Action) (l : RateLimiter) → IsPaced l → IsPaced (run_actions actions l)
run_actions-keeps [] l p = p
run_actions-keeps (a ∷ actions) l p = run_actions-keeps actions (act a l) (act-IsPaced a l p)

-- Whatever is done with a new limiter of any positive rate, in any order: its spacing lies between the configured one and
-- the larger of that and two seconds, a penalty lasts at most thirty seconds, no more callers are
-- active than allowed, and a caller waits only while all places are taken.
pub run_actions-IsPaced :
    (calls secs places : ℕ) (l : RateLimiter) (actions : List Action)
    → create_limiter calls secs places ≡ ok l
    → IsPaced (run_actions actions l)
run_actions-IsPaced calls secs places l actions e =
    run_actions-keeps actions l (create_limiter-IsPaced calls secs places l e)
