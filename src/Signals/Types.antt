-- ===== src/Signals/Types.antt =====
-- src/signals/types.ts: what the evaluation of a pool reads, keeps and produces.
use lp_monitor.Prelude.{ℕ, String, Option, Bool, List, ℤ}
use lp_monitor.Domain.{PoolRef, BlockAnchor}
use lp_monitor.Metrics.Types.{PoolMetricWindows}
use lp_monitor.Signals.Baseline.{SignalBaseline}

pub data AlertKind : Type 0 where
  candidate hot reheat cooling liquidity_watch : AlertKind

pub data SignalCoverage : Type 0 where
  complete gap warming rechecking : SignalCoverage

pub data SignalState : Type 0 where
  watch candidate hot cooling : SignalState

pub data AlertScale : Type 0 where
  one_minute five_minutes : AlertScale

pub record SignalPresentation : Type 0 where
  pub rwa_symbol : Option String
  pub pair_label : Option String
  pub associated_tokens : Option (List String)
  pub evidence_txs : Option (List String)
  pub liquidity_note : Option String

-- `minute_close` is the evaluation mode of that name.
pub record SignalInput : Type 0 where
  pub minute_close : Bool
  pub pool : PoolRef
  pub batch_id : String
  pub end_anchor : BlockAnchor
  pub watermark_sec : ℕ
  pub observed_at_ms : ℕ
  pub metrics : PoolMetricWindows
  pub coverage : SignalCoverage
  pub presentation : Option SignalPresentation
  pub epoch : Option String

pub record RuleMatch : Type 0 where
  pub rule_id : String
  pub version : String
  pub matched : Bool
  pub reason : String

pub record SignalSnapshot : Type 0 where
  pub state : SignalState
  pub episode_id : Option String
  pub config_version : Option String
  pub last_alert_sec : Option ℕ
  pub last_alert_volume : Option ℤ
  pub last_alert_scale : Option AlertScale
  pub last_five_end_sec : Option ℕ
  pub low_buckets : ℕ
  pub entry_threshold : Option ℕ
  pub last_alert_kind : Option AlertKind
  pub candidate_minute_start_sec : Option ℕ
  pub candidate_fingerprint : Option String
  pub last_heat_sec : Option ℕ

pub record BaselinePair : Type 0 where
  pub minute : SignalBaseline
  pub five_minute : SignalBaseline

-- `revision` is 1 and `status` is `provisional` in every draft.
pub record AlertDraft : Type 0 where
  pub id : String
  pub historical : Option Bool
  pub logical_time_sec : Option ℕ
  pub kind : AlertKind
  pub pool : PoolRef
  pub pool_id : String
  pub rule_version : String
  pub episode_id : Option String
  pub at_batch_id : String
  pub observed_at_ms : ℕ
  pub end_anchor : BlockAnchor
  pub watermark_sec : ℕ
  pub reasons : List String
  pub metrics : PoolMetricWindows
  pub coverage : SignalCoverage
  pub presentation : Option SignalPresentation
  pub baseline : BaselinePair

pub record Evaluation : Type 0 where
  pub end_sec : ℕ
  pub matches : List RuleMatch

pub record SignalDecision : Type 0 where
  pub next_snapshot : SignalSnapshot
  pub alert_draft : Option AlertDraft
  pub matches : List RuleMatch
  pub alert_drafts : List AlertDraft
  pub evaluations : List Evaluation
