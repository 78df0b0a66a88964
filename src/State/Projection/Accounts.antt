-- ===== src/State/Projection/Accounts.antt =====
-- About the replay of src/state/project-range.ts: what becomes of each log.
use lp_monitor.Prelude.{
  ℕ, suc, ◌+◌, if◌then◌else◌, ◌≡◌, refl, ◌∙◌, inl, inr, Bool, true, false, Bool-cases, Option, none,
  some, is_some, String, str_eq, List, [], ◌∷◌, ◌++◌, any, length, length-append, sort, Outcome, ok,
  >>=-eq-ok, ok_inj, arith,
}
use lp_monitor.Prelude.Dict.{Dict, lookup, insert}
use mathlib.Core.Path.{subst}
use lp_monitor.Domain.{LogTime}
use lp_monitor.Registry.{PoolRegistration, id_of}
use lp_monitor.State.Observations.{PoolEvent, PoolObservation, observe_pool}
use lp_monitor.State.Projection.{
  RawLog, ErrorCode, ProjectionQualityError, Decoded, Decoder, RegistryLookup, Projection,
  time_or_unresolved, is_unresolved, registration_of, with_error, observation_or_empty, observed,
  settled, timed, decode, step_of, step, replay, comes_first, preseeded,
}

-- The first log of each key.
unfoldable pub first_of_keys : List String → List RawLog → List RawLog
first_of_keys seen [] = []
first_of_keys seen (log ∷ rest) =
    let here = log ∷ first_of_keys (log.key ∷ seen) rest in
    let later = first_of_keys seen rest in if any (str_eq log.key) seen then later else here

-- An error that stands in the place of an event.
abbrev pub one_if_final : ErrorCode → ℕ
one_if_final ErrorCode.unregistered_pool = 1
one_if_final ErrorCode.unresolved_time = 0
one_if_final (ErrorCode.rejected code) = 1

abbrev pub refusals : List ProjectionQualityError → ℕ
refusals [] = 0
refusals (e ∷ es) = one_if_final e.code + refusals es

-- Evidence of a discovery, which is no operation of a pool.
abbrev pub is_evidence : RegistryLookup → RawLog → Option PoolRegistration → Bool
is_evidence registry log none = registry.is_discovery log.key
is_evidence registry log (some r) = false

abbrev pub evidence : RegistryLookup → List RawLog → ℕ
evidence registry [] = 0
evidence registry (log ∷ rest) =
    (if is_evidence registry log (registration_of registry log) then 1 else 0)
    + evidence registry rest

abbrev outcomes : Projection → ℕ
outcomes p = length p.events + refusals p.quality_errors

refusals-append :
    (es : List ProjectionQualityError) (e : ProjectionQualityError)
    → refusals (es ++ e ∷ []) ≡ refusals es + one_if_final e.code
refusals-append [] e = omega arith
refusals-append (x ∷ es) e = omega (arith, refusals-append es e)

-- A step that adds one outcome, or none.
abbrev Adds : ℕ → Projection → Outcome Projection → Type 0
Adds n p o = (q : Projection) → o ≡ ok q → (outcomes q ≡ outcomes p + n) × (q.seen ≡ p.seen)

observed-Adds :
    (r : PoolRegistration) (event : PoolEvent) (p : Projection) → Adds 0 p (observed r event p)
observed-Adds r event p q e = elim (Bool-cases (is_some event.pool)) [
  | inr alone ↦
      let same : ok p ≡ ok q = rw alone at e in
      subst (λ x. (outcomes x ≡ outcomes p + 0) × (x.seen ≡ p.seen)) (ok_inj same)
        (omega arith, refl)
  | inl pooled ↦
      let call = observe_pool (observation_or_empty r (lookup (id_of r) p.observations)) event in
      let next =
        λ (o : PoolObservation). record p { observations = insert (id_of r) o p.observations } in
      let (o, called, made) = >>=-eq-ok call (λ o. ok (next o)) (rw pooled at e) in
      subst (λ x. (outcomes x ≡ outcomes p + 0) × (x.seen ≡ p.seen)) {x = next o} (ok_inj made)
        (omega arith, refl)
]

settled-Adds :
    (log : RawLog) (time : LogTime) (r : PoolRegistration) (p : Projection) (d : Decoded)
    → Adds 1 p (settled log time r p d)
settled-Adds log time r p (Decoded.decoded event) q e =
    let (count, seen) = observed-Adds r event (record p { events = p.events ++ event ∷ [] }) q e in
    (omega (arith, count, length-append p.events (event ∷ [])), seen)
settled-Adds log time r p (Decoded.refused code) q e =
    subst (λ x. (outcomes x ≡ outcomes p + 1) × (x.seen ≡ p.seen))
      {x = with_error (ErrorCode.rejected code) log time (some (id_of r)) p} (ok_inj e)
      (
        omega (
          arith,
          refusals-append p.quality_errors (record {
            code = ErrorCode.rejected code;
            raw = log;
            time = time;
            pool_id = some (id_of r);
          }),
        ),
        refl,
      )
settled-Adds log time r p (Decoded.failed message) q e = cc

timed-outcomes :
    (log : RawLog) (time : LogTime) (r : PoolRegistration) (p : Projection)
    → (outcomes (timed log time r p) ≡ outcomes p) × ((timed log time r p).seen ≡ p.seen)
timed-outcomes log time r p = elim (Bool-cases (is_unresolved time)) [
  | inr known ↦ rw known (refl, refl)
  | inl unknown ↦ rw unknown (
    omega (
      arith,
      refusals-append p.quality_errors (record {
        code = ErrorCode.unresolved_time;
        raw = log;
        time = time;
        pool_id = some (id_of r);
      }),
    ),
    refl,
  )
]

module _ (decode_v3 decode_v4 : Decoder) (times : Dict LogTime) (registry : RegistryLookup) where
  step_of-Adds :
      (log : RawLog) (time : LogTime) (p : Projection) (o : Option PoolRegistration)
      → Adds
          (if is_evidence registry log o then 0 else 1)
          p
          (step_of decode_v3 decode_v4 times registry log time p o)
  step_of-Adds log time p (some r) q e =
      let (same, seen) = timed-outcomes log time r p in
      let (count, kept) =
        settled-Adds log time r (timed log time r p)
          (decode decode_v3 decode_v4 times registry r.pool log time r) q e in
      (omega (arith, same, count), kept ∙ seen)
  step_of-Adds log time p none q e = elim (Bool-cases (registry.is_discovery log.key)) [
    | inl found ↦
        let same : ok p ≡ ok q = rw found at e in
        rw found (
          subst (λ x. (outcomes x ≡ outcomes p + 0) × (x.seen ≡ p.seen)) (ok_inj same)
            (omega arith, refl))
    | inr unknown ↦
        let next = with_error ErrorCode.unregistered_pool log time none p in
        let same : ok next ≡ ok q = rw unknown at e in
        rw unknown (
          subst (λ x. (outcomes x ≡ outcomes p + 1) × (x.seen ≡ p.seen)) {x = next} (ok_inj same)
            (
              omega (
                arith,
                refusals-append p.quality_errors (record {
                  code = ErrorCode.unregistered_pool;
                  raw = log;
                  time = time;
                  pool_id = none;
                }),
              ),
              refl,
            ))
  ]

  abbrev Balanced : List RawLog → Projection → Projection → Type 0
  Balanced logs p q =
      outcomes q + evidence registry (first_of_keys p.seen logs)
      ≡ outcomes p + length (first_of_keys p.seen logs)

  replay-Balanced :
      (logs : List RawLog) (p q : Projection)
      → replay decode_v3 decode_v4 times registry logs p ≡ ok q
      → Balanced logs p q
  unfolding replay step first_of_keys
  replay-Balanced [] p q e = subst (Balanced [] p) (ok_inj e) refl
  replay-Balanced (log ∷ logs) p q e = elim (Bool-cases (any (str_eq log.key) p.seen)) [
    | inl seen ↦
        let later : replay decode_v3 decode_v4 times registry logs p ≡ ok q = rw seen at e in
        rw seen (replay-Balanced logs p q later)
    | inr new ↦
        let marked = record p { seen = log.key ∷ p.seen } in
        let call =
          step_of decode_v3 decode_v4 times registry log (time_or_unresolved (lookup log.key times))
            marked (registration_of registry log) in
        let (next, called, later) =
          >>=-eq-ok call (replay decode_v3 decode_v4 times registry logs) (rw new at e) in
        let (count, kept) =
          step_of-Adds log (time_or_unresolved (lookup log.key times)) marked
            (registration_of registry log) next called in
        let rest = replay-Balanced logs next q later in
        let rest' : outcomes q + evidence registry (first_of_keys (log.key ∷ p.seen) logs)
            ≡ outcomes next + length (first_of_keys (log.key ∷ p.seen) logs) =
          subst
            (λ s.
              outcomes q + evidence registry (first_of_keys s logs)
              ≡ outcomes next + length (first_of_keys s logs))
            kept rest in
        rw new (
          balance (is_evidence registry log (registration_of registry log)) _ _ (outcomes next)
            (outcomes q) count rest')
  ]
    where
      balance :
          (b : Bool) (known all next last : ℕ)
          → next ≡ outcomes p + (if b then 0 else 1)
          → last + known ≡ next + all
          → last + ((if b then 1 else 0) + known) ≡ outcomes p + suc all
      balance true known all next last h k = omega arith
      balance false known all next last h k = omega arith

-- The events and the errors that stand for a log are as many as the keys of the logs, less the logs
-- that are only evidence of a discovery.
pub outcomes_add_up :
    (decode_v3 decode_v4 : Decoder) (times : Dict LogTime) (registry : RegistryLookup)
    (logs : List RawLog) (q : Projection)
    → replay decode_v3 decode_v4 times registry (sort comes_first logs) (record {
      seen = [];
      events = [];
      observations = preseeded registry.preseed [];
      quality_errors = [];
    })
      ≡ ok q
    → length q.events
        + refusals q.quality_errors
        + evidence registry (first_of_keys [] (sort comes_first logs))
      ≡ length (first_of_keys [] (sort comes_first logs))
outcomes_add_up decode_v3 decode_v4 times registry logs q e =
    omega (arith, replay-Balanced decode_v3 decode_v4 times registry (sort comes_first logs) _ q e)
