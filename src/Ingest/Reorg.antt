-- ===== src/Ingest/Reorg.antt =====
-- src/ingest/reorg.ts: the search for the last retained checkpoint that the chain still has. The
-- reader is a parameter, which may answer each call differently: its first argument is the number
-- of the calls before.
pub mod Found
pub mod Ended
use lp_monitor.Prelude.{
  ℕ, zero, suc, ◌+◌, ◌-◌, ◌*◌, ◌/◌, ◌==◌, ltb, leb, if◌then◌else◌, Bool, true, false, not, ◌&&◌,
  ◌||◌, Option, none, some, List, [], ◌∷◌, length, get_or, sort, Outcome, ok, throw, ◌>>=◌,
}
use lp_monitor.Prelude.Text.{same_hex}
use lp_monitor.Metrics.Baseline.{is_safe_integer}
use lp_monitor.Domain.{BlockAnchor}

abbrev pub Reader : Type 0
Reader = ℕ → ℕ → Outcome BlockAnchor

-- The calls made, and the answers by index.
pub record Search : Type 0 where
  pub calls : ℕ
  pub cache : List (ℕ × Bool)

abbrev pub is_lower : BlockAnchor → BlockAnchor → Bool
is_lower a b = ltb a.number b.number

unfoldable pub cached : ℕ → List (ℕ × Bool) → Option Bool
cached index [] = none
cached index ((i, found) ∷ rest) =
    let later = cached index rest in if i == index then some found else later

abbrev pub same_block : BlockAnchor → BlockAnchor → Bool
same_block current saved =
    same_hex current.hash saved.hash && (current.timestamp_sec == saved.timestamp_sec)

abbrev pub compared : ℕ → BlockAnchor → Search → BlockAnchor → Outcome (Option Bool × Search)
compared index saved s current =
    if not (current.number == saved.number)
    then throw "Checkpoint response height mismatch"
    else ok (
      some (same_block current saved),
      record s { calls = s.calls + 1; cache = (index, same_block current saved) ∷ s.cache },
    )

-- `ordered` is `first ∷ rest`, so that an index has a checkpoint.
module _ (reader : Reader) (ordered : List BlockAnchor) (first : BlockAnchor) (max_calls : ℕ) where
  abbrev pub at_index : ℕ → BlockAnchor
  at_index index = get_or ordered index first

  -- `matches`, by the answer that is kept.
  abbrev pub ask : ℕ → Search → Option Bool → Outcome (Option Bool × Search)
  ask index s (some found) = ok (some found, s)
  ask index s none =
      if leb max_calls s.calls
      then ok (none, s)
      else reader s.calls (at_index index).number >>= compared index (at_index index) s

  unfoldable pub matches : ℕ → Search → Outcome (Option Bool × Search)
  matches index s = ask index s (cached index s.cache)

  -- The binary search between a checkpoint that matches and one that does not.
  unfoldable pub bisect : ℕ → ℕ → ℕ → Search → Outcome (Option BlockAnchor)
  bisect zero low high s = throw "The search did not end"
  bisect (suc fuel) low high s =
      if leb (high - low) 1
      then ok (some (at_index low))
      else matches ((low + high) / 2) s >>= λ (r : Option Bool × Search). elim r.0 [
        | none ↦ ok none
        | some true ↦ bisect fuel ((low + high) / 2) high r.1
        | some false ↦ bisect fuel low ((low + high) / 2) r.1
      ]

  -- The search back from the last checkpoint in growing steps.
  unfoldable pub gallop : ℕ → ℕ → ℕ → ℕ → Search → Outcome (Option BlockAnchor)
  gallop zero last step failed s = throw "The search did not end"
  gallop (suc fuel) last step failed s = matches (last - step) s >>= λ (r : Option Bool × Search).
      elim r.0 [
        | none ↦ ok none
        | some true ↦ bisect (suc failed) (last - step) failed r.1
        | some false ↦
            if last - step == 0 then ok none else gallop fuel last (step * 2) (last - step) r.1
      ]

  unfoldable pub search_from : ℕ → Outcome (Option BlockAnchor)
  search_from last =
      matches last (record { calls = 0; cache = [] }) >>= λ (r : Option Bool × Search). elim r.0 [
        | some true ↦ ok (some (at_index last))
        | some false ↦ gallop (suc last) last 1 last r.1
        | none ↦ gallop (suc last) last 1 last r.1
      ]

abbrev pub search_sorted : Reader → ℕ → List BlockAnchor → Outcome (Option BlockAnchor)
search_sorted reader max_calls [] = ok none
search_sorted reader max_calls (first ∷ rest) =
    if max_calls == 0
    then ok none
    else search_from reader (first ∷ rest) first max_calls (length rest)

unfoldable pub find_matching_checkpoint :
    Reader → List BlockAnchor → ℕ → Outcome (Option BlockAnchor)
find_matching_checkpoint reader checkpoints max_calls =
    if ltb 32 max_calls
    then throw "Checkpoint search budget must be between 0 and 32"
    else search_sorted reader max_calls (sort is_lower checkpoints)
