-- ===== src/Tests/Times.antt =====
-- Runs of src/ingest/time-index.ts and src/ingest/log-time.ts on a chain with a block every two
-- seconds, and of src/rpc/resolve-time.ts.
use lp_monitor.Prelude.{
  ℕ, ◌+◌, ◌*◌, ◌≤◌, ◌<◌, min, leb, ◌≡◌, refl, ◌⊎◌, true, some, String, List, [], ◌∷◌, All, any,
  sort, insert_sorted, select, str_eq, false, ok, arith,
}
use lp_monitor.Prelude.Dict.{lookup, insert}
use lp_monitor.Domain.{BlockAnchor}
use lp_monitor.Rpc.ResolveTime.{validate_time_anchor}
use lp_monitor.Ingest.Reorg.{Reader}
use lp_monitor.Ingest.TimeIndex.{
  MinuteBoundary, Samples, find_anchor, add_anchor, add_anchors, sorted_anchors,
  resolve_minute_boundary,
}
use lp_monitor.Ingest.TimeIndex.Chain.{Chain, OnChain, Honest}
use lp_monitor.Ingest.TimeIndex.Boundary.{boundary_is_first}
use lp_monitor.Ingest.LogTime.{
  TimedLog, assign_log_minutes, minute_time, unresolved_time, boundary_is_valid, resolve_target,
  assign_all, assign_one, around, highest, lowest,
}
use lp_monitor.Ingest.LogTime.Minute.{assigned_minute_is_true}
use lp_monitor.Ingest.LogTime.Target.{target_is_resolved}

abbrev time_of : ℕ → ℕ
time_of n = 60 + min (n * 2) 1000

abbrev chain : Chain
chain = record {
  hash_of = λ n. "0xaa";
  time_of = time_of;
  in_order = λ m n h. ground arith;
  is_safe = λ n. ground arith;
  is_started = λ n e. absurd (omega arith);
}

abbrev block : ℕ → BlockAnchor
block n = record { number = n; hash = "0xaa"; timestamp_sec = time_of n }

abbrev reader : Reader
reader calls n = ok (block n)

reader-Honest : Honest chain reader
reader-Honest calls n = (block n, refl, refl, (refl, refl))

abbrev no_samples : Samples
no_samples = record { calls = 0; cache = [] }

boundary_is_first_example :
    (b : MinuteBoundary) × (t : Samples) × (resolve_minute_boundary reader 120
        (block 3)
        (block 100)
        no_samples
      ≡ ok (b, t))
    × (120 ≤ time_of b.first_block)
    × ((n : ℕ) → n < b.first_block → time_of n < 120)
    × (b.before.number + 1 ≡ b.first_block)
    × All (OnChain chain) t.cache
boundary_is_first_example =
    boundary_is_first chain reader 120 (block 3) (block 100) no_samples reader-Honest (refl, refl)
      (refl, refl) tt refl (omega arith) (omega arith)

abbrev one_sample : Samples
one_sample = record { calls = 0; cache = block 100 ∷ [] }

sample-reaches : any (λ a. leb 120 a.timestamp_sec) one_sample.cache ≡ true
unfolding any
sample-reaches = refl

target_is_resolved_example :
    (b : MinuteBoundary) × (t : Samples) × (resolve_target reader 120 one_sample ≡ ok (b, t))
    × (b.timestamp_sec ≡ 120)
    × (boundary_is_valid b ≡ true)
    × OnChain chain b.before
    × OnChain chain b.at
    × All (OnChain chain) t.cache
target_is_resolved_example =
    target_is_resolved chain reader 120 one_sample reader-Honest ((refl, refl), tt) sample-reaches
      refl (omega arith)

abbrev logs : List TimedLog
logs =
    record { key = "a"; block_number = 31; block_hash = "0xaa" }
    ∷ record { key = "b"; block_number = 70; block_hash = "0xaa" }
    ∷ []

abbrev boundaries : List MinuteBoundary
boundaries =
    record { timestamp_sec = 120; first_block = 30; before = block 29; at = block 30 }
    ∷ record { timestamp_sec = 180; first_block = 60; before = block 59; at = block 60 }
    ∷ []

abbrev block_of : String → ℕ
block_of key = elim (str_eq key "a") [ true ↦ 31 | false ↦ 70 ]

assigns_the_minute :
    lookup "a" (assign_log_minutes logs (block 29 ∷ []) boundaries) ≡ some (minute_time 120)
unfolding assign_log_minutes sorted_anchors add_anchors add_anchor validate_time_anchor find_anchor
    any sort insert_sorted select assign_all assign_one around highest lowest insert lookup
assigns_the_minute = refl

assigned_minute_is_true_example :
    (minute_time 120 ≡ unresolved_time) ⊎ (minute_time 120 ≡ minute_time (time_of 31))
assigned_minute_is_true_example =
    assigned_minute_is_true chain block_of logs (block 29 ∷ []) boundaries ((refl, refl), tt)
      (((refl, refl), (refl, refl), refl), (((refl, refl), (refl, refl), refl), tt))
      (refl, (refl, tt)) "a" (minute_time 120) assigns_the_minute
