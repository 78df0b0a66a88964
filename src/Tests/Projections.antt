-- ===== src/Tests/Projections.antt =====
-- A run of src/state/project-range.ts: a swap that is named twice, a log of no pool, and evidence.
use lp_monitor.Prelude.{ℕ, if◌then◌else◌, Option, none, some, String, str_eq, List, [], ◌∷◌, sort}
use lp_monitor.Prelude.Dict.{Dict}
use lp_monitor.Domain.{LogTime, TimeSource}
use lp_monitor.Registry.{PoolRegistration}
use lp_monitor.State.Observations.{EventKind}
use lp_monitor.State.Projection.{
  RawLog, Decoded, Decoder, RegistryLookup, Projection, view_lookup, comes_first,
}
use lp_monitor.State.Projection.Accounts.{first_of_keys}
use lp_monitor.Tests.Registry.{registration}

abbrev log_at : ℕ → String → String → RawLog
log_at n key address = record {
  ref = record {
    block_hash = "0xbb";
    block_number = n;
    transaction_hash = "0xcc";
    transaction_index = 0;
    log_index = 0;
  };
  key = key;
  address = address;
  topic1 = none;
}

abbrev decode_swap : Decoder
decode_swap log time r =
    Decoded.decoded (record { kind = EventKind.swap; pool = some r.pool; ref = log.ref; body = "" })

abbrev found_pool : String → Option PoolRegistration
found_pool id = if str_eq id "4663:v3:0xaa" then some (registration "factory" 500) else none

abbrev view : RegistryLookup
view = view_lookup found_pool (str_eq "found")

abbrev times : Dict LogTime
times =
    (
      "swap",
      record {
        minute_start_sec = some 60;
        exact_timestamp_sec = none;
        source = TimeSource.minute_boundary;
      },
    )
    ∷ []

abbrev logs : List RawLog
logs =
    log_at 7 "stray" "0xdd"
    ∷ log_at 6 "swap" "0xaa"
    ∷ log_at 6 "swap" "0xaa"
    ∷ log_at 5 "found" "0xee"
    ∷ []

abbrev kept : List RawLog
kept = first_of_keys [] (sort comes_first logs)
