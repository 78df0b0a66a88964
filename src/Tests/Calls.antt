-- ===== src/Tests/Calls.antt =====
-- Runs of src/rpc/rate-limit.ts and src/storage/commit-boundary.ts.
use lp_monitor.Prelude.{
  ◌+◌, ◌*◌, ◌≤◌, ◌≡◌, refl, ◌++◌, ◌||◌, if◌then◌else◌, map, true, false, Option, none, some, List,
  [], ◌∷◌, ok,
}
use lp_monitor.Rpc.RateLimit.{
  RateLimiter, create_limiter, try_acquire, penalize, relax_if_idle, slot_bound, take_slot,
}
use lp_monitor.Rpc.RateLimit.Paced.{Action, run_actions, IsPaced, run_actions-IsPaced}
use lp_monitor.Rpc.RateLimit.Spacing.{Outlasts, slots_keep_distance}
use lp_monitor.Storage.CommitBoundary.{Settled, Connection, with_commit_boundary}
use lp_monitor.Storage.CommitBoundary.Nested.{
  Body, run_body, effects_in, undos_in, caches_in, fails_in, outermost-settles_all,
}

-- Two calls in five seconds, two at a time.
abbrev fresh : RateLimiter
fresh = record {
  base_interval_ms = 2500;
  max_concurrent = 2;
  next_ms = 0;
  cooldown_delay_ms = 0;
  cooldown_until_ms = 0;
  effective_interval_ms = 2500;
  successes = 0;
  last_penalty_at_ms = none;
  active = 0;
  waiters = [];
}

fresh_is_created : create_limiter 2 5 2 ≡ ok fresh
unfolding create_limiter
fresh_is_created = refl

run_actions-IsPaced_example :
    IsPaced (run_actions (Action.entered 1 ∷ Action.penalized 50 ∷ Action.succeeded ∷ []) fresh)
run_actions-IsPaced_example =
    run_actions-IsPaced 2 5 2 fresh (Action.entered 1 ∷ Action.penalized 50 ∷ Action.succeeded ∷ [])
      fresh_is_created

abbrev acquired_of : Option RateLimiter → RateLimiter
acquired_of none = fresh
acquired_of (some l) = l

abbrev before_first : List Action
before_first = Action.penalized 50 ∷ []

abbrev between_slots : List Action
between_slots = Action.penalized 1600 ∷ []

abbrev first : RateLimiter
first = acquired_of (try_acquire 1500 (run_actions before_first fresh))

is_first : try_acquire 1500 (run_actions before_first fresh) ≡ some first
unfolding try_acquire take_slot slot_bound penalize relax_if_idle
is_first = refl

abbrev second : RateLimiter
second = acquired_of (try_acquire 4000 (run_actions between_slots first))

is_second : try_acquire 4000 (run_actions between_slots first) ≡ some second
unfolding try_acquire take_slot slot_bound penalize relax_if_idle
is_second = refl

slots_keep_distance_example :
    (2 * 1500 + 1000 * 5 ≤ 2 * 4000)
    × Outlasts 1500 before_first fresh
    × Outlasts 4000 between_slots first
slots_keep_distance_example =
    slots_keep_distance 2 5 2 fresh first second before_first between_slots 1500 4000
      fresh_is_created is_first is_second

abbrev idle : Connection
idle = record { boundary = none; in_transaction = false; log = [] }

abbrev publish_inside : Body
publish_inside =
    Body.cache "registry"
      (Body.nested (Body.effect "publish" Body.done) true (Body.undo "restore" Body.done))

outermost-settles_all_example :
    (with_commit_boundary (λ d. (run_body publish_inside d, false)) idle).0 ≡ record idle {
      boundary = none;
      log =
          []
          ++ (if fails_in publish_inside || (false || false)
              then map Settled.invalidated (caches_in publish_inside [])
                ++ map Settled.ran (undos_in publish_inside)
              else map Settled.ran (effects_in publish_inside));
    }
outermost-settles_all_example = outermost-settles_all publish_inside false idle refl
