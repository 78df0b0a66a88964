-- ===== src/Tests/Notify.antt =====
-- Runs of src/notify: one scope with an open alert and a withdrawal that silence has closed.
use lp_monitor.Prelude.{
  ℕ, ◌+◌, ◌≤◌, ◌≡◌, refl, Bool, true, false, not, Option, none, some, [], ◌∷◌, select, every, any,
  length, All, Outcome, ok, throw,
}
use lp_monitor.Prelude.Dict.{lookup}
use lp_monitor.Notify.Tables.{
  CaptureMode, Status, DeliveryMode, Reason, Alert, Row, Db, is_sent, same_alert, update,
  find_authority,
}
use lp_monitor.Notify.Policy.{
  read_delivery_policy, of_scope, is_undelivered, is_owed, disable, set_delivery_mode, has_mode,
}
use lp_monitor.Notify.Policy.Transitions.{disable-silences, set_delivery_mode_idempotent}
use lp_monitor.Notify.Outbox.{
  Sink, Pass, DeliverOptions, is_silent_policy, is_outdated, enqueue, claimed_rows, ineligibility,
  attempt, refuse, offer, visit, visit_all, deliver_pending, start_pass,
}
use lp_monitor.Notify.Outbox.Intents.{
  IsUnique, enqueue-keeps_newest, enqueue-respects-silence, enqueue-IsUnique,
}
use lp_monitor.Notify.Outbox.Passes.{refusal-blocks_alert}
use lp_monitor.Notify.Outbox.Claimed.{IsOffered, deliver_pending-offers_claimed}

abbrev alert : ℕ → Bool → Alert
alert revision retracted = record {
  id = "a";
  revision = revision;
  retracted = retracted;
  observed_at_ms = 100;
}

abbrev row : ℕ → Status → Option Reason → Alert → Row
row sequence status reason a = record {
  sequence = sequence;
  scope_id = "s";
  alert_id = a.id;
  revision = a.revision;
  capture_mode = CaptureMode.live;
  status = status;
  attempts = 0;
  last_error = reason;
  payload = a;
}

abbrev one_open : Db
one_open = record {
  outbox = row 1 Status.pending none (alert 1 false) ∷ [];
  next_sequence = 2;
  alerts = [];
  policies = [];
  draining = false;
  in_transaction = false;
}

-- The scope is silent, and the withdrawal in revision 2 was never delivered.
abbrev one_owed : Db
one_owed = record one_open {
  outbox =
      row 1 Status.sent none (alert 1 false)
      ∷ row 2 Status.superseded (some Reason.delivery_disabled) (alert 2 true)
      ∷ [];
  next_sequence = 3;
  alerts =
      record {
        scope_id = "s";
        id = "a";
        revision = 2;
        active = false;
        capture_mode = CaptureMode.live;
      }
      ∷ [];
  policies =
      (
        "s",
        record {
          mode = DeliveryMode.silent;
          generation = 1;
          enabled_at_ms = none;
          disabled_at_ms = some 5;
        },
      )
      ∷ [];
}

withdrawal_is_owed : length (select (is_owed one_owed "s") one_owed.outbox) ≡ 1
unfolding is_owed select every find_authority
withdrawal_is_owed = refl

disable-silences_example :
    (every (λ r. not (is_undelivered "s" r)) (disable one_open "s" 9).0.outbox ≡ true)
    × (select (λ r. is_sent r.status) (disable one_open "s" 9).0.outbox
        ≡ select (λ r. is_sent r.status) one_open.outbox)
    × (select (λ r. not (of_scope "s" r)) (disable one_open "s" 9).0.outbox
        ≡ select (λ r. not (of_scope "s" r)) one_open.outbox)
    × ((disable one_open "s" 9).1.suppressed ≡ length (select (is_undelivered "s") one_open.outbox))
disable-silences_example = disable-silences one_open "s" 9

set_delivery_mode_idempotent_example :
    (has_mode
        (read_delivery_policy (set_delivery_mode one_open "s" DeliveryMode.silent 9).0 "s")
        DeliveryMode.silent
      ≡ true)
    × ((set_delivery_mode
          (set_delivery_mode one_open "s" DeliveryMode.silent 9).0
          "s"
          DeliveryMode.silent
          10).0
        ≡ (set_delivery_mode one_open "s" DeliveryMode.silent 9).0)
    × ((set_delivery_mode
          (set_delivery_mode one_open "s" DeliveryMode.silent 9).0
          "s"
          DeliveryMode.silent
          10).1.transitioned
        ≡ false)
set_delivery_mode_idempotent_example =
    set_delivery_mode_idempotent one_open "s" DeliveryMode.silent 9 10

enqueue-keeps_newest_example :
    every
      (λ r. not (
        is_outdated
          (enqueue one_open "s" (alert 2 true) CaptureMode.live).outbox
          "s"
          "a"
          CaptureMode.live
          r))
      (enqueue one_open "s" (alert 2 true) CaptureMode.live).outbox
    ≡ true
enqueue-keeps_newest_example = enqueue-keeps_newest one_open "s" (alert 2 true) CaptureMode.live

scope_is_silent : is_silent_policy (read_delivery_policy one_owed "s") ≡ true
unfolding read_delivery_policy lookup
scope_is_silent = refl

enqueue-respects-silence_example :
    length
      (select (is_undelivered "s") (enqueue one_owed "s" (alert 3 false) CaptureMode.live).outbox)
    ≤ length (select (is_undelivered "s") one_owed.outbox)
enqueue-respects-silence_example =
    enqueue-respects-silence one_owed "s" (alert 3 false) CaptureMode.live scope_is_silent

one_open-IsUnique : IsUnique one_open.outbox
unfolding IsUnique any
one_open-IsUnique = (refl, tt)

enqueue-IsUnique_example : IsUnique (enqueue one_open "s" (alert 1 false) CaptureMode.live).outbox
enqueue-IsUnique_example =
    enqueue-IsUnique one_open "s" (alert 1 false) CaptureMode.live one_open-IsUnique

abbrev refusing : Sink
refusing r tables = record { delivered = false; tables = tables }

abbrev options : DeliverOptions
options = record {
  scope_id = some "s";
  retracted_only = false;
  limit = some 5;
  max_age_ms = none;
  now_ms = 200;
}

abbrev first_row : Row
first_row = row 1 Status.pending none (alert 1 false)

first_is_refused :
    (visit refusing 200 900000 first_row (start_pass one_open)).failed
    ≡ (start_pass one_open).failed + 1
unfolding visit offer ineligibility attempt refuse any find_authority update
first_is_refused = refl

refusal-blocks_alert_example :
    select
      (same_alert "s" "a")
      (visit_all refusing 200 900000
        (first_row ∷ row 2 Status.pending none (alert 2 true) ∷ [])
        (start_pass one_open)).offered
    ≡ select
        (same_alert "s" "a")
        (visit refusing 200 900000 first_row (start_pass one_open)).offered
refusal-blocks_alert_example =
    refusal-blocks_alert refusing 200 900000 first_row
      (row 2 Status.pending none (alert 2 true) ∷ []) (start_pass one_open) first_is_refused

abbrev pass_of : Outcome Pass → Pass
pass_of (ok p) = p
pass_of (throw message) = start_pass one_open

abbrev delivered : Pass
delivered = pass_of (deliver_pending refusing options one_open)

is_delivered : deliver_pending refusing options one_open ≡ ok delivered
unfolding deliver_pending
is_delivered = refl

deliver_pending-offers_claimed_example :
    (false ≡ false)
    × (false ≡ false)
    × (delivered.db.draining ≡ false)
    × (delivered.sent + delivered.failed ≡ length delivered.offered)
    × (length delivered.offered ≤ length (claimed_rows one_open options))
    × All (IsOffered one_open options) delivered.offered
deliver_pending-offers_claimed_example =
    deliver_pending-offers_claimed refusing options one_open delivered is_delivered
