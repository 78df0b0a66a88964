-- ===== src/Tests/Search.antt =====
-- A run of src/ingest/reorg.ts: the chain has another block at the last of three checkpoints.
use lp_monitor.Prelude.{
  ℕ, ◌≡◌, refl, ltb, if◌then◌else◌, Option, some, List, [], ◌∷◌, sort, insert_sorted, ok, arith,
}
use lp_monitor.Prelude.Text.{to_lower_case}
use lp_monitor.Domain.{BlockAnchor}
use lp_monitor.Ingest.Reorg.{
  Reader, find_matching_checkpoint, search_from, gallop, bisect, matches, cached,
}
use lp_monitor.Ingest.Reorg.Found.{Confirmed}
use lp_monitor.Ingest.Reorg.Ended.{Answers, find_matching_checkpoint_lem}

abbrev block : ℕ → BlockAnchor
block n = record { number = n; hash = if ltb n 30 then "0xaa" else "0xbb"; timestamp_sec = n }

abbrev forked_chain : Reader
forked_chain calls n = ok (block n)

abbrev checkpoints : List BlockAnchor
checkpoints = record { number = 30; hash = "0xaa"; timestamp_sec = 30 } ∷ block 10 ∷ block 20 ∷ []

finds_the_fork : find_matching_checkpoint forked_chain checkpoints 32 ≡ ok (some (block 20))
unfolding find_matching_checkpoint search_from gallop bisect matches cached sort insert_sorted
    to_lower_case
finds_the_fork = refl

chain-Answers : Answers forked_chain
chain-Answers calls n = (block n, refl, refl)

find_matching_checkpoint_lem_example :
    (result : Option BlockAnchor) × (find_matching_checkpoint forked_chain checkpoints 32
      ≡ ok result)
    × ((a : BlockAnchor) → result ≡ some a → Confirmed forked_chain 32 a)
find_matching_checkpoint_lem_example =
    find_matching_checkpoint_lem forked_chain checkpoints 32 chain-Answers (omega arith)
