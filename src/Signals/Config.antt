-- ===== src/Signals/Config.antt =====
-- src/signals/config.ts: the rules' settings, what the schema accepts of them, and their version.
use Prim.Native.Char.{code}
use lp_monitor.Prelude.{
  ℕ, zero, suc, ◌==◌, ltb, leb, if◌then◌else◌, Bool, true, false, ◌&&◌, ◌||◌, Option, none, some,
  String, ◌≡◌, refl, Outcome, ok, throw,
}
use lp_monitor.Prelude.Text.{concat}
use lp_monitor.Metrics.Baseline.{is_safe_integer}

pub record RelativeRule : Type 0 where
  pub enabled : Bool
  pub threshold : ℕ
  pub version : String
  pub multiple : ℕ
  pub samples : ℕ

-- `buckets` may be left out.
pub record ConsecutiveRule : Type 0 where
  pub enabled : Bool
  pub threshold : ℕ
  pub version : String
  pub buckets : Option ℕ

pub record ThresholdRule : Type 0 where
  pub enabled : Bool
  pub threshold : ℕ
  pub version : String

pub record CoolingRule : Type 0 where
  pub enabled : Bool
  pub threshold : ℕ
  pub buckets : ℕ
  pub version : String

pub record SignalConfig : Type 0 where
  pub version : String
  pub episode_expiry : ThresholdRule
  pub candidate : RelativeRule
  pub confirm_relative : RelativeRule
  pub confirm_consecutive : ConsecutiveRule
  pub cooldown : ThresholdRule
  pub upgrade : ThresholdRule
  pub cooling : CoolingRule

-- The expression /^[a-zA-Z0-9_.-]{1,64}$/.
is_version_code : ℕ → Bool
is_version_code c =
    leb b'a' c && leb c b'z'
    || leb b'A' c && leb c b'Z'
    || leb b'0' c && leb c b'9'
    || c == b'_'
    || c == b'.'
    || c == b'-'

version_tail : ℕ → String → Bool
version_tail room String.[] = true
version_tail zero (String.◌∷◌ c s) = false
version_tail (suc room) (String.◌∷◌ c s) = is_version_code (code c) && version_tail room s

unfoldable pub is_version : String → Bool
unfolding is_version_code version_tail
is_version String.[] = false
is_version (String.◌∷◌ c s) = version_tail 64 (String.◌∷◌ c s)

abbrev is_positive_safe : ℕ → Bool
is_positive_safe n = ltb 0 n && is_safe_integer n

-- A decimal text with no leading zero is a positive number of any size.
unfoldable pub relative_accepts : RelativeRule → Bool
unfolding is_version
relative_accepts r =
    ltb 0 r.threshold
    && is_version r.version
    && is_positive_safe r.multiple
    && is_positive_safe r.samples

abbrev one_or_two : Option ℕ → Bool
one_or_two none = true
one_or_two (some n) = n == 1 || n == 2

unfoldable pub schema_accepts : SignalConfig → Bool
unfolding is_version relative_accepts
schema_accepts c =
    is_version c.version
    && is_positive_safe c.episode_expiry.threshold
    && is_version c.episode_expiry.version
    && relative_accepts c.candidate
    && relative_accepts c.confirm_relative
    && ltb 0 c.confirm_consecutive.threshold
    && is_version c.confirm_consecutive.version
    && one_or_two c.confirm_consecutive.buckets
    && is_safe_integer c.cooldown.threshold
    && is_version c.cooldown.version
    && leb 2 c.upgrade.threshold
    && is_safe_integer c.upgrade.threshold
    && is_version c.upgrade.version
    && leb 1 c.cooling.threshold
    && leb c.cooling.threshold 100
    && is_positive_safe c.cooling.buckets
    && is_version c.cooling.version

unfoldable pub parse_signal_config : SignalConfig → Outcome SignalConfig
unfolding schema_accepts
parse_signal_config c = if schema_accepts c then ok c else throw "ZodError"

-- `initialSignalConfig`, with the expiry rule that the schema fills in.
abbrev pub initial_signal_config : SignalConfig
initial_signal_config = record {
  version = "p4-v2";
  episode_expiry = record { enabled = true; threshold = 3600; version = "1" };
  candidate = record {
    enabled = true;
    threshold = 20000000000;
    version = "1";
    multiple = 5;
    samples = 60;
  };
  confirm_relative = record {
    enabled = true;
    threshold = 100000000000;
    version = "1";
    multiple = 5;
    samples = 12;
  };
  confirm_consecutive = record {
    enabled = true;
    threshold = 50000000000;
    version = "1";
    buckets = none;
  };
  cooldown = record { enabled = true; threshold = 300; version = "1" };
  upgrade = record { enabled = true; threshold = 2; version = "1" };
  cooling = record { enabled = true; threshold = 25; buckets = 3; version = "1" };
}

-- `digest` stands for the SHA-256 of the settings' JSON.
unfoldable pub signal_config_version : (SignalConfig → String) → SignalConfig → String
signal_config_version digest c = concat c.version (concat ":" (digest c))

initial_is_accepted : parse_signal_config initial_signal_config ≡ ok initial_signal_config
unfolding parse_signal_config
initial_is_accepted = refl
