-- ===== src/Ingest/TimeIndex.antt =====
-- src/ingest/time-index.ts: the search for the first block of a minute, over blocks that were
-- sampled. The reader is a parameter, which may answer each call differently.
pub mod Chain
pub mod Boundary
use lp_monitor.Prelude.{
  ℕ, zero, suc, ◌+◌, ◌-◌, ◌==◌, ltb, leb, if◌then◌else◌, Bool, true, false, not, ◌&&◌, ◌||◌, Option,
  none, some, String, str_eq, List, [], ◌∷◌, ◌++◌, sort, Outcome, ok, throw, ◌>>=◌,
}
use lp_monitor.Metrics.Baseline.{is_safe_integer}
use lp_monitor.Domain.{BlockAnchor}
use lp_monitor.Rpc.ResolveTime.{
  BlockRate, bracket_block_rate, interpolate_probe, validate_time_anchor,
}
use lp_monitor.Ingest.Reorg.{Reader}

-- `MinuteBoundary` of src/domain/types.ts.
pub record MinuteBoundary : Type 0 where
  pub timestamp_sec : ℕ
  pub first_block : ℕ
  pub before : BlockAnchor
  pub at : BlockAnchor

-- The calls made so far, and the sampled blocks in the order in which they were set.
pub record Samples : Type 0 where
  pub calls : ℕ
  pub cache : List BlockAnchor

unfoldable pub find_anchor : ℕ → List BlockAnchor → Option BlockAnchor
find_anchor number [] = none
find_anchor number (a ∷ rest) =
    let later = find_anchor number rest in if a.number == number then some a else later

abbrev pub same_anchor : BlockAnchor → BlockAnchor → Bool
same_anchor a b = str_eq a.hash b.hash && (a.timestamp_sec == b.timestamp_sec)

-- A block that is there already must be the same, and keeps its place.
abbrev set_anchor : BlockAnchor → List BlockAnchor → Option BlockAnchor → Outcome (List BlockAnchor)
set_anchor anchor cache none = ok (cache ++ anchor ∷ [])
set_anchor anchor cache (some existing) =
    if same_anchor existing anchor then ok cache else throw "Conflicting block anchor"

unfoldable pub add_anchor : BlockAnchor → List BlockAnchor → Outcome (List BlockAnchor)
add_anchor anchor cache = validate_time_anchor anchor cache >>= λ _.
    set_anchor anchor cache (find_anchor anchor.number cache)

abbrev pub received : ℕ → Samples → BlockAnchor → Outcome (BlockAnchor × Samples)
received number s anchor =
    if not (anchor.number == number)
    then throw "Block anchor mismatch"
    else add_anchor anchor s.cache >>= λ cache.
        ok (anchor, record { calls = s.calls + 1; cache = cache })

abbrev pub fetched : Reader → ℕ → Samples → Option BlockAnchor → Outcome (BlockAnchor × Samples)
fetched reader number s (some cached) = ok (cached, s)
fetched reader number s none = reader s.calls number >>= received number s

unfoldable pub get_anchor : Reader → ℕ → Samples → Outcome (BlockAnchor × Samples)
get_anchor reader number s = fetched reader number s (find_anchor number s.cache)

abbrev pub proven : ℕ → BlockAnchor → BlockAnchor → Samples → Outcome (MinuteBoundary × Samples)
proven target before at s =
    if leb target before.timestamp_sec || ltb at.timestamp_sec target
    then throw "Minute boundary proof failed"
    else ok
        (record { timestamp_sec = target; first_block = at.number; before = before; at = at }, s)

-- The loop that narrows the bracket from `before` to `at`.
unfoldable pub narrow :
    Reader
    → ℕ
    → BlockRate
    → ℕ
    → BlockAnchor
    → BlockAnchor
    → Samples
    → Outcome (MinuteBoundary × Samples)
narrow reader target rate zero before at s = throw "The search did not end"
narrow reader target rate (suc fuel) before at s =
    if leb (at.number - before.number) 1
    then proven target before at s
    else get_anchor reader
        (interpolate_probe before.number before.timestamp_sec at.number at.timestamp_sec target
          rate)
        s
      >>= λ (r : BlockAnchor × Samples). elim (leb target r.0.timestamp_sec) [
        | true ↦ narrow reader target rate fuel before r.0 r.1
        | false ↦ narrow reader target rate fuel r.0 at r.1
      ]

abbrev pub has_no_bracket : ℕ → BlockAnchor → BlockAnchor → Bool
has_no_bracket target lo hi =
    leb hi.number lo.number || leb target lo.timestamp_sec || ltb hi.timestamp_sec target

unfoldable pub resolve_minute_boundary :
    Reader → ℕ → BlockAnchor → BlockAnchor → Samples → Outcome (MinuteBoundary × Samples)
resolve_minute_boundary reader target lo hi s =
    if not (is_safe_integer target) || (target == 0)
    then throw "timestampSec must be a positive safe integer"
    else add_anchor lo s.cache >>= λ with_lo. add_anchor hi with_lo >>= λ with_both.
        if has_no_bracket target lo hi
        then throw "Minute boundary requires lo.timestampSec < target <= hi.timestampSec"
        else narrow reader target
            (bracket_block_rate lo.number lo.timestamp_sec hi.number hi.timestamp_sec)
            (suc (hi.number - lo.number)) lo hi (record s { cache = with_both })

abbrev pub comes_first : BlockAnchor → BlockAnchor → Bool
comes_first a b = ltb a.number b.number

unfoldable pub add_anchors : List BlockAnchor → List BlockAnchor → Outcome (List BlockAnchor)
add_anchors [] cache = ok cache
add_anchors (a ∷ rest) cache = add_anchor a cache >>= λ next. add_anchors rest next

unfoldable pub sorted_anchors : List BlockAnchor → Outcome (List BlockAnchor)
sorted_anchors anchors = add_anchors anchors [] >>= λ cache. ok (sort comes_first cache)
