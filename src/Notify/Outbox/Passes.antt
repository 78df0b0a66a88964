-- ===== src/Notify/Outbox/Passes.antt =====
-- About `deliverPending` of src/notify/outbox.ts.
use lp_monitor.Prelude.{
  ℕ, ◌+◌, ◌≡◌, refl, ◌∙◌, Bool, true, false, not, ◌||◌, Bool-cases, inl, inr, Option, none, some,
  String, str_eq, eq_iff, List, [], ◌∷◌, select, arith,
}
use lp_monitor.Notify.Tables.{Reason, Row, same_alert}
use lp_monitor.Notify.Outbox.{
  Sink, Pass, ineligibility, is_blocked, still_open, attempt, offer, visit, visit_all, terminal,
}

-- What a visit of a row does to the blocked alerts, the counts and the offered rows: it skips or
-- closes the row, or it offers it and, if the sink refuses, blocks its alert.
pub data Visited (r : Row) (p q : Pass) : Type 0 where
  passed_by :
      q.blocked ≡ p.blocked
      → q.sent ≡ p.sent
      → q.failed ≡ p.failed
      → q.offered ≡ p.offered
      → Visited r p q
  accepted :
      is_blocked p.blocked r ≡ false
      → q.blocked ≡ p.blocked
      → q.sent ≡ p.sent + 1
      → q.failed ≡ p.failed
      → q.offered ≡ r ∷ p.offered
      → Visited r p q
  refused :
      is_blocked p.blocked r ≡ false
      → q.blocked ≡ (r.scope_id, r.alert_id) ∷ p.blocked
      → q.sent ≡ p.sent
      → q.failed ≡ p.failed + 1
      → q.offered ≡ r ∷ p.offered
      → Visited r p q

offer-Visited :
    (sink : Sink) (r : Row) (p : Pass)
    → is_blocked p.blocked r ≡ false
    → Visited r p (offer sink r p)
unfolding offer
offer-Visited sink r p free = elim (Bool-cases (sink r (attempt r.sequence p.db)).delivered) [
  | inl took ↦ rw took (Visited.accepted free refl refl refl refl)
  | inr threw ↦ rw threw (Visited.refused free refl refl refl refl)
]

or_false : (a b : Bool) → (a || b) ≡ false → a ≡ false
or_false a b h = ground arith

checked-Visited :
    (sink : Sink) (r : Row) (p : Pass) (o : Option Reason)
    → is_blocked p.blocked r ≡ false
    → Visited r p (elim o [
      | some reason ↦ record p { db = terminal reason r.sequence p.db }
      | none ↦ offer sink r p
    ])
checked-Visited sink r p none free = offer-Visited sink r p free
checked-Visited sink r p (some reason) free = Visited.passed_by refl refl refl refl

pub visit-Visited :
    (sink : Sink) (now age : ℕ) (r : Row) (p : Pass) → Visited r p (visit sink now age r p)
unfolding visit
visit-Visited sink now age r p =
    elim (Bool-cases (is_blocked p.blocked r || not (still_open p.db r.sequence))) [
      | inl skip ↦ rw skip (Visited.passed_by refl refl refl refl)
      | inr go ↦ rw go (checked-Visited sink r p (ineligibility p.db r now age) (or_false _ _ go))
    ]

is_blocked_same :
    (blocked : List (String × String)) (r x : Row)
    → is_blocked blocked r ≡ true
    → same_alert r.scope_id r.alert_id x ≡ true
    → is_blocked blocked x ≡ true
is_blocked_same [] r x h s = h
is_blocked_same ((scope, alert) ∷ rest) r x h s = ground (
  arith,
  is_blocked_same rest r x,
  eq_iff r.scope_id x.scope_id,
  eq_iff x.scope_id r.scope_id,
  eq_iff r.alert_id x.alert_id,
  eq_iff x.alert_id r.alert_id,
  eq_iff r.scope_id scope,
  eq_iff x.scope_id scope,
  eq_iff r.alert_id alert,
  eq_iff x.alert_id alert,
)

-- What the rest of a pass keeps of a blocked alert: it stays blocked, and no row of it is offered.
abbrev StaysBlocked : Row → Pass → Pass → Type 0
StaysBlocked r p q =
    (is_blocked q.blocked r ≡ true)
    × (select (same_alert r.scope_id r.alert_id) q.offered
        ≡ select (same_alert r.scope_id r.alert_id) p.offered)

Visited-StaysBlocked :
    (r x : Row) (p q : Pass) → Visited x p q → is_blocked p.blocked r ≡ true → StaysBlocked r p q
unfolding select
Visited-StaysBlocked r x p q (Visited.passed_by b s f o) h = rw (b, o) (h, refl)
Visited-StaysBlocked r x p q (Visited.accepted free b s f o) h =
    rw (b, o) (h, ground (arith, is_blocked_same p.blocked r x h))
Visited-StaysBlocked r x p q (Visited.refused free b s f o) h =
    rw (b, o) (ground arith, ground (arith, is_blocked_same p.blocked r x h))

visit_all-StaysBlocked :
    (sink : Sink) (now age : ℕ) (r : Row) (rows : List Row) (p : Pass)
    → is_blocked p.blocked r ≡ true
    → StaysBlocked r p (visit_all sink now age rows p)
unfolding visit_all
visit_all-StaysBlocked sink now age r [] p h = (h, refl)
visit_all-StaysBlocked sink now age r (x ∷ rows) p h =
    let (stays, same) = Visited-StaysBlocked r x p _ (visit-Visited sink now age x p) h in
    let (still, kept) = visit_all-StaysBlocked sink now age r rows (visit sink now age x p) stays in
    (still, kept ∙ same)

str_eq_refl : (s : String) → str_eq s s ≡ true
str_eq_refl s = ground (arith, eq_iff s s)

failed-blocks :
    (r : Row) (p q : Pass) → Visited r p q → q.failed ≡ p.failed + 1 → is_blocked q.blocked r ≡ true
failed-blocks r p q (Visited.passed_by b s f o) h = absurd (omega (arith, f, h))
failed-blocks r p q (Visited.accepted free b s f o) h = absurd (omega (arith, f, h))
failed-blocks r p q (Visited.refused free b s f o) h =
    rw (b, str_eq_refl r.scope_id, str_eq_refl r.alert_id) refl

-- Once the sink refuses a row, the rest of the pass offers no row of the same scope and alert, so no
-- later revision and no withdrawal overtakes the one that failed.
pub refusal-blocks_alert :
    (sink : Sink) (now age : ℕ) (r : Row) (rest : List Row) (p : Pass)
    → (visit sink now age r p).failed ≡ p.failed + 1
    → select (same_alert r.scope_id r.alert_id) (visit_all sink now age (r ∷ rest) p).offered
      ≡ select (same_alert r.scope_id r.alert_id) (visit sink now age r p).offered
unfolding visit_all
refusal-blocks_alert sink now age r rest p failed =
    (visit_all-StaysBlocked sink now age r rest (visit sink now age r p)
      (failed-blocks r p _ (visit-Visited sink now age r p) failed)).1
