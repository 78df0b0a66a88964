-- ===== src/Rpc/RateLimit/Spacing.antt =====
-- About the slots of src/rpc/rate-limit.ts.
use lp_monitor.Prelude.{
  ℕ, ◌+◌, ◌-◌, ◌*◌, ◌≤◌, ◌<◌, min, ◌≡◌, refl, Bool, true, false, some, List, [], ◌∷◌, ok, arith,
}
use mathlib.Core.Path.{subst}
use lp_monitor.Rpc.RateLimit.{
  RateLimiter, base_interval_of, create_limiter, relax_if_idle, penalize, defer_slot, succeed,
  slot_bound, take_slot, try_acquire, enter, cancel, release, hand_over,
}
use lp_monitor.Rpc.RateLimit.Paced.{Action, act, or_same, run_actions, run_actions-IsPaced}

-- No action brings the next slot or the end of a penalty forward, or changes the configured rate.
abbrev Later : RateLimiter → RateLimiter → Type 0
Later l k =
    (l.next_ms ≤ k.next_ms)
    × (l.cooldown_until_ms ≤ k.cooldown_until_ms)
    × (k.base_interval_ms ≡ l.base_interval_ms)

relaxed-Later : (now : ℕ) (l : RateLimiter) → Later l (relax_if_idle now l)
unfolding relax_if_idle
relaxed-Later now l = ground arith

penalized-Later : (now : ℕ) (l : RateLimiter) → Later l (penalize now l)
unfolding penalize
penalized-Later now l = let r = relaxed-Later now l in (r.0, omega (arith, r.1), r.2)

acquired-Later : (now : ℕ) (l : RateLimiter) → Later l (or_same l (try_acquire now l))
unfolding try_acquire take_slot slot_bound
acquired-Later now l = ground arith

succeeded-Later : (l : RateLimiter) → Later l (succeed l)
unfolding succeed
succeeded-Later l = ground arith

entered-Later : (ticket : ℕ) (l : RateLimiter) → Later l (enter ticket l).0
unfolding enter
entered-Later ticket l = ground arith

handed-Later : (l : RateLimiter) (ws : List ℕ) → Later l (hand_over l ws)
handed-Later l ws = ground arith

released-Later : (released : Bool) (l : RateLimiter) → Later l (release released l).0
unfolding release
released-Later true l = (omega arith, omega arith, refl)
released-Later false l = handed-Later l l.waiters

act-Later : (a : Action) (l : RateLimiter) → Later l (act a l)
unfolding defer_slot cancel
act-Later (Action.penalized now) l = penalized-Later now l
act-Later (Action.deferred now ms) l = (omega arith, omega arith, refl)
act-Later Action.succeeded l = succeeded-Later l
act-Later (Action.relaxed now) l = relaxed-Later now l
act-Later (Action.acquired now) l = acquired-Later now l
act-Later (Action.entered ticket) l = entered-Later ticket l
act-Later (Action.canceled ticket) l = (omega arith, omega arith, refl)
act-Later (Action.left released) l = released-Later released l

run_actions-Later : (actions : List Action) (l : RateLimiter) → Later l (run_actions actions l)
run_actions-Later [] l = (omega arith, omega arith, refl)
run_actions-Later (a ∷ actions) l =
    let one = act-Later a l in
    let rest = run_actions-Later actions (act a l) in
    (omega (arith, one.0, rest.0), omega (arith, one.1, rest.1), ground (arith, one.2, rest.2))

acquired-facts :
    (now : ℕ) (l next : RateLimiter)
    → try_acquire now l ≡ some next
    → (l.next_ms ≤ now)
      × (l.cooldown_until_ms ≤ now)
      × (next.next_ms ≡ now + l.effective_interval_ms)
unfolding try_acquire take_slot slot_bound
acquired-facts now l next e = ground arith

-- A penalty at `now` holds the slots back for a second, or for twice the delay that it found, up to
-- thirty seconds.
abbrev pub Waits : ℕ → Action → RateLimiter → Type 0
Waits u (Action.penalized now) l =
    (now + 1000 ≤ u) × (now + min 30000 ((relax_if_idle now l).cooldown_delay_ms * 2) ≤ u)
Waits u a l = Unit

-- Each penalty of the actions is over at `u`.
abbrev pub Outlasts : ℕ → List Action → RateLimiter → Type 0
Outlasts u [] l = Unit
Outlasts u (a ∷ actions) l = Waits u a l × Outlasts u actions (act a l)

act-Waits : (u : ℕ) (a : Action) (l : RateLimiter) → (act a l).cooldown_until_ms ≤ u → Waits u a l
unfolding penalize
act-Waits u (Action.penalized now) l h = (omega (arith, h), omega (arith, h))
act-Waits u (Action.deferred now ms) l h = tt
act-Waits u Action.succeeded l h = tt
act-Waits u (Action.relaxed now) l h = tt
act-Waits u (Action.acquired now) l h = tt
act-Waits u (Action.entered ticket) l h = tt
act-Waits u (Action.canceled ticket) l h = tt
act-Waits u (Action.left released) l h = tt

run_actions-Outlasts :
    (u : ℕ) (actions : List Action) (l : RateLimiter)
    → (run_actions actions l).cooldown_until_ms ≤ u
    → Outlasts u actions l
run_actions-Outlasts u [] l h = tt
run_actions-Outlasts u (a ∷ actions) l h =
    let later = run_actions-Later actions (act a l) in
    (act-Waits u a l (omega (arith, h, later.1)), run_actions-Outlasts u actions (act a l) h)

-- The spacing is long enough for the rate.
base_interval_of-lower :
    (calls secs : ℕ) → 0 < calls → 1000 * secs ≤ calls * base_interval_of calls secs
base_interval_of-lower calls secs h = grind arith

created-rate :
    (calls secs places : ℕ) (l : RateLimiter)
    → create_limiter calls secs places ≡ ok l
    → 1000 * secs ≤ calls * l.base_interval_ms
unfolding create_limiter
created-rate calls secs places l e = ground (arith, base_interval_of-lower calls secs)

scaled :
    (calls secs base t u : ℕ)
    → t + base ≤ u
    → 1000 * secs ≤ calls * base
    → calls * t + 1000 * secs ≤ calls * u
scaled calls secs base t u h k =
    subst (λ x. calls * t + 1000 * secs ≤ calls * x) (split_at (t + base) u h)
      (spread (u - (t + base)))
  where
    split_at : (x y : ℕ) → x ≤ y → x + (y - x) ≡ y
    split_at x y le = omega arith

    spread : (more : ℕ) → calls * t + 1000 * secs ≤ calls * (t + base + more)
    spread more = grind (arith, k)

-- Two slots at `t` and later at `u` of a limiter for `calls` calls in `secs` seconds, whatever happens
-- before the first and between the two: they are at least `1000 * secs / calls` apart, and each
-- penalty set before the first slot is over at `t`, and each one set between the two at `u`: a second
-- after it was set, or twice the delay that it found, up to thirty seconds.
pub slots_keep_distance :
    (calls secs places : ℕ) (fresh first second : RateLimiter) (before between : List Action)
    (t u : ℕ)
    → create_limiter calls secs places ≡ ok fresh
    → try_acquire t (run_actions before fresh) ≡ some first
    → try_acquire u (run_actions between first) ≡ some second
    → (calls * t + 1000 * secs ≤ calls * u) × Outlasts t before fresh × Outlasts u between first
slots_keep_distance calls secs places fresh first second before between t u c e e' =
    let paced = run_actions-IsPaced calls secs places fresh before c in
    let same = run_actions-Later before fresh in
    let one = acquired-facts t _ first e in
    let two = acquired-facts u _ second e' in
    let rest = run_actions-Later between first in
    let apart : t + fresh.base_interval_ms ≤ u =
      omega (arith, paced.floor, same.2, one.2, rest.0, two.0) in
    (
      scaled calls secs fresh.base_interval_ms t u apart (created-rate calls secs places fresh c),
      run_actions-Outlasts t before fresh one.1,
      run_actions-Outlasts u between first two.1,
    )
