-- ===== src/Notify/Policy/Transitions.antt =====
-- About `setDeliveryMode` of src/notify/delivery-policy.ts.
use lp_monitor.Prelude.{
  ℕ, ◌≡◌, refl, sym, ◌∙◌, ap, if◌then◌else◌, true, false, not, Bool-cases, inl, inr, Option, none,
  some, String, select, every, length, arith, eq_iff,
}
use mathlib.Core.Path.{subst}
use lp_monitor.Prelude.Dict.{lookup, insert, lookup-insert}
use lp_monitor.Notify.Tables.{
  Row, DeliveryMode, DeliveryPolicy, Db, is_open, is_sent, same_delivery,
}
use lp_monitor.Notify.Tables.Updates.{changes-eq-length, select-update, every-update}
use lp_monitor.Notify.Policy.{
  ModeChange, read_delivery_policy, of_scope, is_undelivered, suppress, disable, enable,
  change_mode, request_mode, set_delivery_mode, has_mode,
}

undelivered_open :
    (scope : String) (r : Row) → is_undelivered scope r ≡ true → is_open r.status ≡ true
unfolding is_undelivered
undelivered_open scope r h = ground arith

undelivered_scope :
    (scope : String) (r : Row) → is_undelivered scope r ≡ true → of_scope scope r ≡ true
unfolding is_undelivered
undelivered_scope scope r h = ground arith

suppressed_closed :
    (scope : String) (r : Row)
    → not (is_undelivered scope (if is_undelivered scope r then suppress r else r)) ≡ true
unfolding is_undelivered suppress
suppressed_closed scope r = ground arith

suppress-scope : (scope : String) (r : Row) → of_scope scope (suppress r) ≡ of_scope scope r
unfolding suppress
suppress-scope scope r = refl

open_not_sent : (r : Row) → is_open r.status ≡ true → is_sent r.status ≡ false
open_not_sent r h = ground arith

suppress_not_sent : (r : Row) → is_sent (suppress r).status ≡ false
unfolding suppress
suppress_not_sent r = refl

-- Disabling a scope leaves none of its rows pending or failed, and keeps the sent rows and the rows
-- of other scopes as they are; the reported number is that of the rows it suppressed.
pub disable-silences :
    (db : Db) (scope : String) (now : ℕ)
    → let (after, change) = disable db scope now in
      (every (λ r. not (is_undelivered scope r)) after.outbox ≡ true)
      × (select (λ r. is_sent r.status) after.outbox ≡ select (λ r. is_sent r.status) db.outbox)
      × (select (λ r. not (of_scope scope r)) after.outbox
          ≡ select (λ r. not (of_scope scope r)) db.outbox)
      × (change.suppressed ≡ length (select (is_undelivered scope) db.outbox))
unfolding disable
disable-silences db scope now = (
  every-update _ _ _ (suppressed_closed scope) db.outbox,
  select-update _ _ _ (λ r h. open_not_sent r (undelivered_open scope r h))
      (λ r h. suppress_not_sent r) db.outbox,
  select-update _ _ (λ r. not (of_scope scope r)) (λ r h. ap not (undelivered_scope scope r h))
      (λ r h. ap not (suppress-scope scope r ∙ undelivered_scope scope r h)) db.outbox,
  changes-eq-length _ db.outbox,
)

same_delivery_refl : (m : DeliveryMode) → same_delivery m m ≡ true
same_delivery_refl m = ground arith

pub lookup-same :
    (scope : String) (p : DeliveryPolicy) (db : Db)
    → lookup scope (insert scope p db.policies) ≡ some p
lookup-same scope p db = ground (arith, lookup-insert scope scope p db.policies, eq_iff scope scope)

disabled-mode :
    (db : Db) (scope : String) (now : ℕ)
    → has_mode (read_delivery_policy (disable db scope now).0 scope) DeliveryMode.silent ≡ true
unfolding disable read_delivery_policy
disabled-mode db scope now = rw (lookup-same scope _ db) refl

enabled-mode :
    (db : Db) (scope : String) (now : ℕ)
    → has_mode (read_delivery_policy (enable db scope now).0 scope) DeliveryMode.local ≡ true
unfolding enable read_delivery_policy
enabled-mode db scope now = rw (lookup-same scope _ db) refl

changed-mode :
    (db : Db) (scope : String) (mode : DeliveryMode) (now : ℕ)
    → has_mode (read_delivery_policy (change_mode db scope mode now).0 scope) mode ≡ true
unfolding change_mode
changed-mode db scope DeliveryMode.silent now = disabled-mode db scope now
changed-mode db scope DeliveryMode.local now = enabled-mode db scope now

set_delivery_mode-eq-request_mode :
    (db : Db) (scope : String) (mode : DeliveryMode) (now : ℕ) (o : Option DeliveryPolicy)
    → read_delivery_policy db scope ≡ o
    → set_delivery_mode db scope mode now ≡ request_mode db scope mode now o
unfolding set_delivery_mode
set_delivery_mode-eq-request_mode db scope mode now o e = ap (request_mode db scope mode now) e

requested-mode :
    (db : Db) (scope : String) (mode : DeliveryMode) (now : ℕ) (o : Option DeliveryPolicy)
    → read_delivery_policy db scope ≡ o
    → has_mode (read_delivery_policy (request_mode db scope mode now o).0 scope) mode ≡ true
requested-mode db scope mode now none e = changed-mode db scope mode now
requested-mode db scope mode now (some p) e = elim (Bool-cases (same_delivery p.mode mode)) [
  | inl same ↦ rw (same, e) same
  | inr other ↦ rw other (changed-mode db scope mode now)
]

settled-mode :
    (db : Db) (scope : String) (mode : DeliveryMode) (now : ℕ)
    → has_mode (read_delivery_policy (set_delivery_mode db scope mode now).0 scope) mode ≡ true
settled-mode db scope mode now =
    subst (λ (x : Db × ModeChange). has_mode (read_delivery_policy x.0 scope) mode ≡ true)
      (sym (set_delivery_mode-eq-request_mode db scope mode now _ refl))
      (requested-mode db scope mode now _ refl)

has_mode-policy :
    (o : Option DeliveryPolicy) (mode : DeliveryMode)
    → has_mode o mode ≡ true
    → (p : DeliveryPolicy) × (o ≡ some p) × (same_delivery p.mode mode ≡ true)
has_mode-policy none mode h = ground arith
has_mode-policy (some p) mode h = (p, refl, h)

settled-stays :
    (db : Db) (scope : String) (mode : DeliveryMode) (now : ℕ)
    → has_mode (read_delivery_policy db scope) mode ≡ true
    → ((set_delivery_mode db scope mode now).0 ≡ db)
      × ((set_delivery_mode db scope mode now).1.transitioned ≡ false)
settled-stays db scope mode now h =
    let (p, found, same) = has_mode-policy _ mode h in
    rw (set_delivery_mode-eq-request_mode db scope mode now (some p) found, same) (refl, refl)

-- A request for a mode leaves the scope in that mode, and the same request again changes nothing
-- and reports no transition.
pub set_delivery_mode_idempotent :
    (db : Db) (scope : String) (mode : DeliveryMode) (now later : ℕ)
    → let after = (set_delivery_mode db scope mode now).0 in
      (has_mode (read_delivery_policy after scope) mode ≡ true)
      × ((set_delivery_mode after scope mode later).0 ≡ after)
      × ((set_delivery_mode after scope mode later).1.transitioned ≡ false)
set_delivery_mode_idempotent db scope mode now later =
    let settled = settled-mode db scope mode now in
    let (kept, still) = settled-stays _ scope mode later settled in (settled, kept, still)
