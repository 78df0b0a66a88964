-- ===== src/Notify/Outbox/Intents.antt =====
-- About `enqueue` of src/notify/outbox.ts.
use lp_monitor.Prelude.{
  ℕ, ◌≤◌, ltb, ◌==◌, ◌≡◌, refl, ◌∙◌, ap, if◌then◌else◌, Bool, true, false, not, ◌&&◌, ◌||◌,
  Bool-cases, inl, inr, String, eq_iff, List, [], ◌∷◌, ◌++◌, select, any, every, length,
  length-append, arith,
}
use mathlib.Core.Path.{subst}
use lp_monitor.Notify.Tables.{CaptureMode, Alert, Row, Db, same_alert, update}
use lp_monitor.Notify.Tables.Updates.{every-update, any-update, length-select-le, select-append}
use lp_monitor.Notify.Policy.{read_delivery_policy, is_undelivered}
use lp_monitor.Notify.Outbox.{
  is_silent_policy, same_revision, new_row, insert_intent, of_identity, is_outdated, outdate,
  enqueue,
}

outdate-any :
    (rows : List Row) (scope alert : String) (mode : CaptureMode) (n : ℕ) (where_ : Row → Bool)
    → any (λ x. of_identity scope alert mode x && ltb n x.revision) (update where_ outdate rows)
      ≡ any (λ x. of_identity scope alert mode x && ltb n x.revision) rows
unfolding outdate
outdate-any rows scope alert mode n where_ = any-update where_ _ _ (λ r. refl) rows

outdated_closed :
    (rows : List Row) (scope alert : String) (mode : CaptureMode) (r : Row)
    → not (
        is_outdated rows scope alert mode
          (if is_outdated rows scope alert mode r then outdate r else r))
      ≡ true
unfolding is_outdated outdate
outdated_closed rows scope alert mode r = elim (Bool-cases (is_outdated rows scope alert mode r)) [
  | inl h ↦ rw h (ground arith)
  | inr h ↦ rw (h, h) refl
]

is_outdated-any :
    (rows rows' : List Row) (scope alert : String) (mode : CaptureMode) (r : Row)
    → ((n : ℕ)
        → any (λ x. of_identity scope alert mode x && ltb n x.revision) rows'
          ≡ any (λ x. of_identity scope alert mode x && ltb n x.revision) rows)
    → is_outdated rows' scope alert mode r ≡ is_outdated rows scope alert mode r
unfolding is_outdated
is_outdated-any rows rows' scope alert mode r same = rw (same r.revision) refl

-- After an alert is enqueued, no pending or failed row of its identity (scope, alert and capture
-- mode) is below another revision of that identity.
pub enqueue-keeps_newest :
    (db : Db) (scope : String) (alert : Alert) (mode : CaptureMode)
    → let rows = (enqueue db scope alert mode).outbox in
      every (λ r. not (is_outdated rows scope alert.id mode r)) rows ≡ true
unfolding enqueue
enqueue-keeps_newest db scope alert mode =
    let rows = (insert_intent db scope alert mode).outbox in
    every-update (is_outdated rows scope alert.id mode) outdate _
      (λ r.
        ap not (
          is_outdated-any rows _ scope alert.id mode _
            (λ n. outdate-any rows scope alert.id mode n _))
        ∙ outdated_closed rows scope alert.id mode r)
      rows

new_row-closed :
    (db : Db) (scope : String) (alert : Alert) (mode : CaptureMode)
    → length (select (is_undelivered scope) (new_row db scope alert mode true ∷ [])) ≡ 0
unfolding select is_undelivered
new_row-closed db scope alert mode = ground arith

longer_by_none : (xs ys : List Row) → length ys ≡ 0 → length (xs ++ ys) ≡ length xs
longer_by_none xs ys h = omega (arith, h, length-append xs ys)

-- A row of a silent scope lands closed, so the open rows of the scope do not grow.
inserted-closed :
    (db : Db) (scope : String) (alert : Alert) (mode : CaptureMode)
    → is_silent_policy (read_delivery_policy db scope) ≡ true
    → length (select (is_undelivered scope) (insert_intent db scope alert mode).outbox)
      ≡ length (select (is_undelivered scope) db.outbox)
unfolding insert_intent
inserted-closed db scope alert mode silent =
    elim (Bool-cases (any (same_revision scope alert) db.outbox)) [
      | inl known ↦ rw known refl
      | inr new ↦
          rw
            (
              new,
              silent,
              select-append (is_undelivered scope) db.outbox
                  (new_row db scope alert mode true ∷ []),
            )
            (longer_by_none _ _ (new_row-closed db scope alert mode))
    ]

outdated_back :
    (scope : String) (r : Row)
    → is_undelivered scope (outdate r) ≡ true
    → is_undelivered scope r ≡ true
unfolding is_undelivered outdate
outdated_back scope r h = ground arith

-- In a silent scope the rows to deliver never grow when an alert is enqueued.
pub enqueue-respects-silence :
    (db : Db) (scope : String) (alert : Alert) (mode : CaptureMode)
    → is_silent_policy (read_delivery_policy db scope) ≡ true
    → length (select (is_undelivered scope) (enqueue db scope alert mode).outbox)
      ≤ length (select (is_undelivered scope) db.outbox)
unfolding enqueue
enqueue-respects-silence db scope alert mode silent =
    subst (λ n. length (select (is_undelivered scope) (enqueue db scope alert mode).outbox) ≤ n)
      (inserted-closed db scope alert mode silent)
      (length-select-le _ outdate (is_undelivered scope) (outdated_back scope)
        (insert_intent db scope alert mode).outbox)

abbrev same_key : Row → Row → Bool
same_key r x = same_alert r.scope_id r.alert_id x && (x.revision == r.revision)

-- No two rows have one scope, alert and revision.
unfoldable pub IsUnique : List Row → Type 0
IsUnique [] = Unit
IsUnique (r ∷ rs) = (any (same_key r) rs ≡ false) × IsUnique rs

update-IsUnique :
    (where_ : Row → Bool) (rs : List Row) → IsUnique rs → IsUnique (update where_ outdate rs)
unfolding update outdate IsUnique
update-IsUnique where_ [] u = tt
update-IsUnique where_ (r ∷ rs) u = (
  any-update where_ outdate (same_key (if where_ r then outdate r else r)) (λ x. refl) rs ∙ kept,
  update-IsUnique where_ rs u.1,
)
  where
    kept : any (same_key (if where_ r then outdate r else r)) rs ≡ false
    kept = elim (Bool-cases (where_ r)) [ inl h ↦ rw h u.0 | inr h ↦ rw h u.0 ]

any-append : (q : Row → Bool) (xs ys : List Row) → any q (xs ++ ys) ≡ (any q xs || any q ys)
unfolding any
any-append q [] ys = refl
any-append q (x ∷ xs) ys = ground (arith, any-append q xs ys)

key_sym : (r x : Row) → same_key r x ≡ same_key x r
key_sym r x = ground (
  arith,
  eq_iff r.scope_id x.scope_id,
  eq_iff x.scope_id r.scope_id,
  eq_iff r.alert_id x.alert_id,
  eq_iff x.alert_id r.alert_id,
)

append-IsUnique :
    (rs : List Row) (x : Row) → IsUnique rs → any (same_key x) rs ≡ false → IsUnique (rs ++ x ∷ [])
unfolding any IsUnique
append-IsUnique [] x u new = (refl, tt)
append-IsUnique (r ∷ rs) x u new = (
  any-append (same_key r) rs (x ∷ []) ∙ ground (arith, u.0, key_sym r x),
  append-IsUnique rs x u.1 (ground arith),
)

insert_intent-IsUnique :
    (db : Db) (scope : String) (alert : Alert) (mode : CaptureMode)
    → IsUnique db.outbox
    → IsUnique (insert_intent db scope alert mode).outbox
unfolding insert_intent
insert_intent-IsUnique db scope alert mode u =
    elim (Bool-cases (any (same_revision scope alert) db.outbox)) [
      | inl known ↦ rw known u
      | inr new ↦ rw new (append-IsUnique db.outbox _ u new)
    ]

-- If no two rows have one scope, alert and revision, the same holds after an alert is enqueued.
pub enqueue-IsUnique :
    (db : Db) (scope : String) (alert : Alert) (mode : CaptureMode)
    → IsUnique db.outbox
    → IsUnique (enqueue db scope alert mode).outbox
unfolding enqueue
enqueue-IsUnique db scope alert mode u =
    update-IsUnique _ _ (insert_intent-IsUnique db scope alert mode u)
