-- ===== src/Notify/Tables.antt =====
-- The tables alert_outbox, alerts and delivery_policy (storage/migrations/004-alerts.sql and
-- 018-delivery-policy.sql), and the statements that src/notify runs on them.
pub mod Updates
use lp_monitor.Prelude.{
  ℕ, suc, ◌+◌, ◌==◌, ltb, leb, if◌then◌else◌, Bool, true, false, not, ◌&&◌, ◌||◌, Option, none,
  some, String, str_eq, List, [], ◌∷◌, ◌++◌, map, select, any, length,
}
use lp_monitor.Prelude.Dict.{Dict}

pub data CaptureMode : Type 0 where
  live backfill synthetic : CaptureMode

pub data Status : Type 0 where
  pending sent failed superseded : Status

pub data DeliveryMode : Type 0 where
  silent local : DeliveryMode

-- What the column `last_error` may say.
pub data Reason : Type 0 where
  delivery_disabled newer_revision local_delivery_failed : Reason
  not_live stale_revision not_retracted inactive expired : Reason

-- The fields of an alert record that delivery reads; the rest of the payload passes through.
pub record Alert : Type 0 where
  pub id : String
  pub revision : ℕ
  pub retracted : Bool
  pub observed_at_ms : ℕ

pub record Row : Type 0 where
  pub sequence : ℕ
  pub scope_id : String
  pub alert_id : String
  pub revision : ℕ
  pub capture_mode : CaptureMode
  pub status : Status
  pub attempts : ℕ
  pub last_error : Option Reason
  pub payload : Alert

-- A row of the authoritative ledger.
pub record Authority : Type 0 where
  pub scope_id : String
  pub id : String
  pub revision : ℕ
  pub active : Bool
  pub capture_mode : CaptureMode

pub record DeliveryPolicy : Type 0 where
  pub mode : DeliveryMode
  pub generation : ℕ
  pub enabled_at_ms : Option ℕ
  pub disabled_at_ms : Option ℕ

-- The rows stand in the order of their sequence numbers, all below `next_sequence`.
pub record Db : Type 0 where
  pub outbox : List Row
  pub next_sequence : ℕ
  pub alerts : List Authority
  pub policies : Dict DeliveryPolicy
  pub draining : Bool
  pub in_transaction : Bool

abbrev pub is_live : CaptureMode → Bool
is_live CaptureMode.live = true
is_live _ = false

abbrev pub same_mode : CaptureMode → CaptureMode → Bool
same_mode CaptureMode.live CaptureMode.live = true
same_mode CaptureMode.backfill CaptureMode.backfill = true
same_mode CaptureMode.synthetic CaptureMode.synthetic = true
same_mode _ _ = false

abbrev pub is_open : Status → Bool
is_open Status.pending = true
is_open Status.failed = true
is_open _ = false

abbrev pub is_sent : Status → Bool
is_sent Status.sent = true
is_sent _ = false

abbrev pub is_superseded : Status → Bool
is_superseded Status.superseded = true
is_superseded _ = false

abbrev pub is_silent : DeliveryMode → Bool
is_silent DeliveryMode.silent = true
is_silent DeliveryMode.local = false

abbrev pub same_delivery : DeliveryMode → DeliveryMode → Bool
same_delivery DeliveryMode.silent DeliveryMode.silent = true
same_delivery DeliveryMode.local DeliveryMode.local = true
same_delivery _ _ = false

abbrev pub is_disabled : Option Reason → Bool
is_disabled (some Reason.delivery_disabled) = true
is_disabled _ = false

abbrev pub same_alert : String → String → Row → Bool
same_alert scope alert r = str_eq r.scope_id scope && str_eq r.alert_id alert

-- `update alert_outbox set … where …`, and the number of rows that it changes.
unfoldable pub update : (Row → Bool) → (Row → Row) → List Row → List Row
update where_ set [] = []
update where_ set (r ∷ rs) =
    let rest = update where_ set rs in (if where_ r then set r else r) ∷ rest

unfoldable pub changes : (Row → Bool) → List Row → ℕ
changes where_ [] = 0
changes where_ (r ∷ rs) = let rest = changes where_ rs in if where_ r then suc rest else rest

unfoldable pub find_authority : String → String → List Authority → Option Authority
find_authority scope id [] = none
find_authority scope id (a ∷ rest) =
    let found = find_authority scope id rest in
    if str_eq a.scope_id scope && str_eq a.id id then some a else found
