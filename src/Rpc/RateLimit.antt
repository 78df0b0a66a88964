-- ===== src/Rpc/RateLimit.antt =====
-- src/rpc/rate-limit.ts: the pacing curve, the slots and the semaphore of one provider. `Date.now()`
-- is an argument. A rate is `calls / secs` calls for a second, any positive rational; a waiter is a
-- number.
pub mod Paced
pub mod Spacing
use lp_monitor.Prelude.{
  ℕ, suc, ◌+◌, ◌-◌, ◌*◌, ◌/◌, ◌==◌, ltb, leb, min, max, if◌then◌else◌, Bool, true, false, ◌||◌, not,
  Option, none, some, List, [], ◌∷◌, ◌++◌, select, Outcome, ok, throw,
}
use lp_monitor.Metrics.Baseline.{is_safe_integer}

abbrev pub max_interval_ms : ℕ
max_interval_ms = 2000

abbrev pub max_cooldown_ms : ℕ
max_cooldown_ms = 30000

abbrev pub min_cooldown_ms : ℕ
min_cooldown_ms = 1000

abbrev pub idle_reset_ms : ℕ
idle_reset_ms = 60000

abbrev pub recovery_steps : ℕ
recovery_steps = 3

-- `last_penalty_at_ms` is `none` for -Infinity.
pub record RateLimiter : Type 0 where
  pub base_interval_ms : ℕ
  pub max_concurrent : ℕ
  pub next_ms : ℕ
  pub cooldown_delay_ms : ℕ
  pub cooldown_until_ms : ℕ
  pub effective_interval_ms : ℕ
  pub successes : ℕ
  pub last_penalty_at_ms : Option ℕ
  pub active : ℕ
  pub waiters : List ℕ

-- `Math.ceil(1000 / perSecond)`.
abbrev pub base_interval_of : ℕ → ℕ → ℕ
base_interval_of calls secs = (1000 * secs + (calls - 1)) / calls

-- A rate of `calls / 0` is not finite.
unfoldable pub create_limiter : (calls secs max_concurrent : ℕ) → Outcome RateLimiter
create_limiter calls secs max_concurrent =
    if (calls == 0) || (secs == 0)
    then throw "RPC rate must be positive"
    else if not (is_safe_integer max_concurrent) || ltb max_concurrent 1
    then throw "RPC concurrency must be positive"
    else ok (record {
      base_interval_ms = base_interval_of calls secs;
      max_concurrent = max_concurrent;
      next_ms = 0;
      cooldown_delay_ms = 0;
      cooldown_until_ms = 0;
      effective_interval_ms = base_interval_of calls secs;
      successes = 0;
      last_penalty_at_ms = none;
      active = 0;
      waiters = [];
    })

-- `now - lastPenaltyAtMs < IDLE_RESET_MS`.
abbrev is_recent : ℕ → Option ℕ → Bool
is_recent now none = false
is_recent now (some at) = ltb now (at + idle_reset_ms)

unfoldable pub relax_if_idle : ℕ → RateLimiter → RateLimiter
relax_if_idle now l =
    if is_recent now l.last_penalty_at_ms
    then l
    else record l { effective_interval_ms = l.base_interval_ms; cooldown_delay_ms = 0 }

unfoldable pub penalize : ℕ → RateLimiter → RateLimiter
penalize now limiter =
    let l = relax_if_idle now limiter in
    let delay = min max_cooldown_ms (max min_cooldown_ms (l.cooldown_delay_ms * 2)) in
    record l {
      successes = 0;
      cooldown_delay_ms = delay;
      cooldown_until_ms = max l.cooldown_until_ms (now + delay);
      effective_interval_ms =
          max l.base_interval_ms (min max_interval_ms (l.effective_interval_ms * 2));
      last_penalty_at_ms = some now;
    }

unfoldable pub defer_slot : ℕ → ℕ → RateLimiter → RateLimiter
defer_slot now ms l = record l { next_ms = max l.next_ms (now + ms) }

unfoldable pub succeed : RateLimiter → RateLimiter
succeed l =
    if ltb (l.successes + 1) recovery_steps
    then record l { successes = l.successes + 1 }
    else record l {
      successes = 0;
      effective_interval_ms = max l.base_interval_ms (l.effective_interval_ms / 2);
      cooldown_delay_ms = l.cooldown_delay_ms / 2;
    }

-- `acquire` calls `relax_if_idle` once and then takes turns of its loop until one succeeds. A turn
-- reads the bound again, and takes the slot if the bound has passed.
unfoldable pub slot_bound : RateLimiter → ℕ
slot_bound l = max l.next_ms l.cooldown_until_ms

unfoldable pub take_slot : ℕ → RateLimiter → RateLimiter
take_slot slot l = record l { next_ms = slot + l.effective_interval_ms }

unfoldable pub try_acquire : ℕ → RateLimiter → Option RateLimiter
try_acquire now l = if leb (slot_bound l) now then some (take_slot now l) else none

-- The same with a second limiter that must be satisfied at the same time.
unfoldable pub try_acquire_both : ℕ → RateLimiter → RateLimiter → Option (RateLimiter × RateLimiter)
try_acquire_both now l additional =
    if leb (max (slot_bound l) (slot_bound additional)) now
    then some (take_slot now l, take_slot now additional)
    else none

-- The caller enters or, as the second part says, waits as `ticket`.
unfoldable pub enter : ℕ → RateLimiter → RateLimiter × Bool
enter ticket l =
    if leb l.max_concurrent l.active
    then (record l { waiters = l.waiters ++ ticket ∷ [] }, true)
    else (record l { active = l.active + 1 }, false)

-- A caller that is aborted while it waits.
unfoldable pub cancel : ℕ → RateLimiter → RateLimiter
cancel ticket l = record l { waiters = select (λ w. not (w == ticket)) l.waiters }

abbrev hand_over : RateLimiter → List ℕ → RateLimiter
hand_over l [] = record l { active = l.active - 1 }
hand_over l (next ∷ rest) = record l { waiters = rest }

-- `released` is the flag that the returned closure keeps.
unfoldable pub release : Bool → RateLimiter → RateLimiter × Bool
release released l = if released then (l, true) else (hand_over l l.waiters, true)
