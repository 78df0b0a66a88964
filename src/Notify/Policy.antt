-- ===== src/Notify/Policy.antt =====
-- src/notify/delivery-policy.ts: the mode of a scope, and what a change of it does to the outbox.
pub mod Enabled
pub mod Owed
pub mod Transitions
use lp_monitor.Prelude.{
  ℕ, suc, ◌+◌, ◌==◌, ltb, leb, if◌then◌else◌, Bool, true, false, not, ◌&&◌, ◌||◌, Option, none,
  some, String, str_eq, List, [], ◌∷◌, any, every,
}
use lp_monitor.Prelude.Dict.{lookup, insert}
use lp_monitor.Notify.Tables.{
  Status, DeliveryMode, Reason, Row, Authority, DeliveryPolicy, Db, is_live, is_open, is_sent,
  is_superseded, is_silent, same_delivery, is_disabled, same_alert, update, changes, find_authority,
}

-- A scope without a policy row was never settled.
unfoldable pub read_delivery_policy : Db → String → Option DeliveryPolicy
read_delivery_policy db scope = lookup scope db.policies

abbrev pub generation_of : Option DeliveryPolicy → ℕ
generation_of none = 0
generation_of (some p) = p.generation

abbrev enabled_of : Option DeliveryPolicy → Option ℕ
enabled_of none = none
enabled_of (some p) = p.enabled_at_ms

abbrev disabled_of : Option DeliveryPolicy → Option ℕ
disabled_of none = none
disabled_of (some p) = p.disabled_at_ms

abbrev pub has_mode : Option DeliveryPolicy → DeliveryMode → Bool
has_mode none mode = false
has_mode (some p) mode = same_delivery p.mode mode

abbrev pub of_scope : String → Row → Bool
of_scope scope r = str_eq r.scope_id scope

-- The rows that a silent scope suppresses.
unfoldable pub is_undelivered : String → Row → Bool
is_undelivered scope r = of_scope scope r && is_open r.status

unfoldable pub suppress : Row → Row
suppress r = record r { status = Status.superseded; last_error = some Reason.delivery_disabled }

abbrev pub has_withdrawn : Row → Option Authority → Bool
has_withdrawn r none = false
has_withdrawn r (some a) = not a.active && (a.revision == r.revision)

-- The withdrawals that a scope owes when delivery is enabled again: the latest revision of an
-- alert that is withdrawn in the ledger, and newer than every one that was sent.
unfoldable pub is_owed : Db → String → Row → Bool
is_owed db scope r =
    of_scope scope r
    && is_live r.capture_mode
    && is_superseded r.status
    && is_disabled r.last_error
    && has_withdrawn r (find_authority r.scope_id r.alert_id db.alerts)
    && r.payload.retracted
    && every (λ x. not (same_alert r.scope_id r.alert_id x) || leb x.revision r.revision) db.outbox
    && ltb 0 r.revision
    && every
        (λ x.
          not (same_alert r.scope_id r.alert_id x && is_sent x.status) || ltb x.revision r.revision)
        db.outbox

unfoldable pub promote : Row → Row
promote r = record r { status = Status.pending; last_error = none }

pub record ModeChange : Type 0 where
  pub policy : DeliveryPolicy
  pub transitioned : Bool
  pub suppressed : ℕ
  pub promoted : ℕ

unfoldable pub disable : Db → String → ℕ → Db × ModeChange
disable db scope now =
    let current = read_delivery_policy db scope in
    let policy : DeliveryPolicy = record {
      mode = DeliveryMode.silent;
      generation = generation_of current;
      enabled_at_ms = enabled_of current;
      disabled_at_ms = some now;
    } in
    (
      record db {
        policies = insert scope policy db.policies;
        outbox = update (is_undelivered scope) suppress db.outbox;
      },
      record {
        policy = policy;
        transitioned = true;
        suppressed = changes (is_undelivered scope) db.outbox;
        promoted = 0;
      },
    )

unfoldable pub enable : Db → String → ℕ → Db × ModeChange
enable db scope now =
    let current = read_delivery_policy db scope in
    let policy : DeliveryPolicy = record {
      mode = DeliveryMode.local;
      generation = generation_of current + 1;
      enabled_at_ms = some now;
      disabled_at_ms = disabled_of current;
    } in
    (
      record db {
        policies = insert scope policy db.policies;
        outbox = update (is_owed db scope) promote db.outbox;
      },
      record {
        policy = policy;
        transitioned = true;
        suppressed = 0;
        promoted = changes (is_owed db scope) db.outbox;
      },
    )

abbrev pub unchanged : Db → DeliveryPolicy → Db × ModeChange
unchanged db p = (db, record { policy = p; transitioned = false; suppressed = 0; promoted = 0 })

unfoldable pub change_mode : Db → String → DeliveryMode → ℕ → Db × ModeChange
change_mode db scope DeliveryMode.silent now = disable db scope now
change_mode db scope DeliveryMode.local now = enable db scope now

-- What a request for a mode does, by the policy that is there.
abbrev pub request_mode : Db → String → DeliveryMode → ℕ → Option DeliveryPolicy → Db × ModeChange
request_mode db scope mode now none = change_mode db scope mode now
request_mode db scope mode now (some p) =
    if same_delivery p.mode mode then unchanged db p else change_mode db scope mode now

unfoldable pub set_delivery_mode : Db → String → DeliveryMode → ℕ → Db × ModeChange
set_delivery_mode db scope mode now = request_mode db scope mode now (read_delivery_policy db scope)
