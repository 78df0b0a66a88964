-- ===== src/Notify/Outbox.antt =====
-- src/notify/outbox.ts: intents to deliver an alert, and a pass that delivers them. While the sink
-- is awaited other code may change the tables: `Sink` says how a call ends and what was changed.
pub mod Claimed
pub mod Intents
pub mod Passes
use lp_monitor.Prelude.{
  ℕ, suc, ◌+◌, ◌*◌, ◌==◌, ltb, leb, if◌then◌else◌, Bool, true, false, not, ◌&&◌, ◌||◌, Option, none,
  some, String, str_eq, List, [], ◌∷◌, ◌++◌, any, select, take, length, Outcome, ok, throw,
}
use lp_monitor.Metrics.Baseline.{is_safe_integer}
use lp_monitor.Notify.Tables.{
  CaptureMode, Status, Reason, Alert, Row, Authority, DeliveryPolicy, Db, is_live, same_mode,
  is_open, is_silent, same_alert, update, find_authority,
}
use lp_monitor.Notify.Policy.{read_delivery_policy}

abbrev pub ordinary_delivery_max_age_ms : ℕ
ordinary_delivery_max_age_ms = 900000

abbrev pub is_silent_policy : Option DeliveryPolicy → Bool
is_silent_policy none = false
is_silent_policy (some p) = is_silent p.mode

abbrev pub same_revision : String → Alert → Row → Bool
same_revision scope alert r = same_alert scope alert.id r && (r.revision == alert.revision)

abbrev new_row : Db → String → Alert → CaptureMode → Bool → Row
new_row db scope alert mode silent = record {
  sequence = db.next_sequence;
  scope_id = scope;
  alert_id = alert.id;
  revision = alert.revision;
  capture_mode = mode;
  status = if silent then Status.superseded else Status.pending;
  attempts = 0;
  last_error = if silent then some Reason.delivery_disabled else none;
  payload = alert;
}

-- `insert … on conflict do nothing`.
unfoldable pub insert_intent : Db → String → Alert → CaptureMode → Db
insert_intent db scope alert mode =
    if any (same_revision scope alert) db.outbox then db else record db {
      outbox =
          db.outbox
          ++ new_row db scope alert mode (is_silent_policy (read_delivery_policy db scope)) ∷ [];
      next_sequence = suc db.next_sequence;
    }

abbrev pub of_identity : String → String → CaptureMode → Row → Bool
of_identity scope alert mode r = same_alert scope alert r && same_mode r.capture_mode mode

-- An open row of the identity below the identity's highest revision.
unfoldable pub is_outdated : List Row → String → String → CaptureMode → Row → Bool
is_outdated rows scope alert mode r =
    of_identity scope alert mode r
    && is_open r.status
    && any (λ x. of_identity scope alert mode x && ltb r.revision x.revision) rows

unfoldable pub outdate : Row → Row
outdate r = record r { status = Status.superseded; last_error = some Reason.newer_revision }

unfoldable pub enqueue : Db → String → Alert → CaptureMode → Db
enqueue db scope alert mode =
    let inserted = insert_intent db scope alert mode in
    record inserted {
      outbox = update (is_outdated inserted.outbox scope alert.id mode) outdate inserted.outbox;
    }

-- The rows that a pass may claim: live, open, and of a scope that is not silent.
unfoldable pub is_claimable : Db → Row → Bool
is_claimable db r =
    is_live r.capture_mode
    && is_open r.status
    && not (is_silent_policy (read_delivery_policy db r.scope_id))

unfoldable pub pending_count : Db → String → ℕ
pending_count db scope =
    length (select (λ r. is_claimable db r && str_eq r.scope_id scope) db.outbox)

pub record DeliverOptions : Type 0 where
  pub scope_id : Option String
  pub retracted_only : Bool
  pub limit : Option ℕ
  pub max_age_ms : Option ℕ
  pub now_ms : ℕ

abbrev pub in_scope : Option String → Row → Bool
in_scope none r = true
in_scope (some scope) r = str_eq r.scope_id scope

abbrev limited : Option ℕ → List Row → List Row
limited none rows = rows
limited (some n) rows = take n rows

unfoldable pub claimed_rows : Db → DeliverOptions → List Row
claimed_rows db o = limited o.limit (
    select
      (λ r.
        is_claimable db r && in_scope o.scope_id r && (not o.retracted_only || r.payload.retracted))
      db.outbox)

-- `eligibility`: why the ledger no longer allows the row, if it does not.
unfoldable pub ineligibility : Db → Row → ℕ → ℕ → Option Reason
ineligibility db r now max_age = elim (find_authority r.scope_id r.alert_id db.alerts) [
  | none ↦ none
  | some a ↦
      if not (is_live a.capture_mode)
      then some Reason.not_live
      else if not (a.revision == r.revision)
      then some Reason.stale_revision
      else if r.payload.retracted
      then if a.active then some Reason.not_retracted else none
      else if not a.active
      then some Reason.inactive
      else if is_safe_integer r.payload.observed_at_ms
          && ltb (r.payload.observed_at_ms + max_age) now
      then some Reason.expired
      else none
]

abbrev pub has_sequence : ℕ → Row → Bool
has_sequence sequence r = r.sequence == sequence

abbrev open_with : ℕ → Row → Bool
open_with sequence r = has_sequence sequence r && is_open r.status

unfoldable pub terminal : Reason → ℕ → Db → Db
terminal reason sequence db = record db {
  outbox =
      update (open_with sequence)
        (λ r. record r { status = Status.superseded; last_error = some reason }) db.outbox;
}

unfoldable pub attempt : ℕ → Db → Db
attempt sequence db = record db {
  outbox = update (has_sequence sequence) (λ r. record r { attempts = r.attempts + 1 }) db.outbox;
}

unfoldable pub acknowledge : ℕ → Db → Db
acknowledge sequence db = record db {
  outbox =
      update (open_with sequence) (λ r. record r { status = Status.sent; last_error = none })
        db.outbox;
}

unfoldable pub refuse : ℕ → Db → Db
refuse sequence db = record db {
  outbox =
      update (open_with sequence)
        (λ r. record r { status = Status.failed; last_error = some Reason.local_delivery_failed })
        db.outbox;
}

-- How a call of the sink ends, and the tables behind the wait.
pub record Reply : Type 0 where
  pub delivered : Bool
  pub tables : Db

abbrev pub Sink : Type 0
Sink = Row → Db → Reply

pub record Pass : Type 0 where
  pub db : Db
  pub blocked : List (String × String)
  pub sent : ℕ
  pub failed : ℕ
  -- The rows handed to the sink so far, the latest first.
  pub offered : List Row

abbrev pub is_blocked : List (String × String) → Row → Bool
is_blocked [] r = false
is_blocked ((scope, alert) ∷ rest) r = same_alert scope alert r || is_blocked rest r

abbrev pub still_open : Db → ℕ → Bool
still_open db sequence = any (open_with sequence) db.outbox

-- The body of the loop behind the checks: count the attempt, await the sink, settle the row.
unfoldable pub offer : Sink → Row → Pass → Pass
offer sink r p =
    let reply = sink r (attempt r.sequence p.db) in
    if reply.delivered
    then record p {
      db = acknowledge r.sequence reply.tables;
      sent = p.sent + 1;
      offered = r ∷ p.offered;
    }
    else record p {
      db = refuse r.sequence reply.tables;
      failed = p.failed + 1;
      blocked = (r.scope_id, r.alert_id) ∷ p.blocked;
      offered = r ∷ p.offered;
    }

unfoldable pub visit : Sink → ℕ → ℕ → Row → Pass → Pass
visit sink now max_age r p =
    if is_blocked p.blocked r || not (still_open p.db r.sequence)
    then p
    else elim (ineligibility p.db r now max_age) [
      | some reason ↦ record p { db = terminal reason r.sequence p.db }
      | none ↦ offer sink r p
    ]

unfoldable pub visit_all : Sink → ℕ → ℕ → List Row → Pass → Pass
visit_all sink now max_age [] p = p
visit_all sink now max_age (r ∷ rs) p = visit_all sink now max_age rs (visit sink now max_age r p)

abbrev pub max_age_of : DeliverOptions → ℕ
max_age_of o = elim o.max_age_ms [ none ↦ ordinary_delivery_max_age_ms | some age ↦ age ]

abbrev pub start_pass : Db → Pass
start_pass db = record {
  db = record db { draining = true };
  blocked = [];
  sent = 0;
  failed = 0;
  offered = [];
}

unfoldable pub deliver_pending : Sink → DeliverOptions → Db → Outcome Pass
deliver_pending sink o db =
    if db.in_transaction
    then throw "Cannot deliver inside a transaction"
    else if db.draining
    then throw "Outbox already has an active delivery"
    else let p = visit_all sink o.now_ms (max_age_of o) (claimed_rows db o) (start_pass db) in
      ok (record p { db = record p.db { draining = false } })
