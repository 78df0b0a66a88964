-- ===== src/Ingest/Completeness/Intervals.antt =====
-- About `coversIntervals` of src/ingest/completeness.ts.
use lp_monitor.Prelude.{
  ℕ, ◌+◌, ◌≤◌, ◌<◌, ltb, leb, if◌then◌else◌, ◌≡◌, refl, sym, ◌∙◌, ap, ◌↔◌, Bool, true, false, ◌&&◌,
  ◌||◌, Bool-cases, inl, inr, List, [], ◌∷◌, any, sort, insert_sorted, All, IsSorted, IsOrder,
  sort-IsSorted, arith,
}
use lp_monitor.Ingest.Completeness.{BlockInterval, starts_before, covers_from, covers_intervals}

abbrev pub holds : ℕ → BlockInterval → Bool
holds n r = leb r.from_block n && leb n r.to_block

-- Every block from `from` to `to` lies in some range.
abbrev pub Covered : List BlockInterval → ℕ → ℕ → Type 0
Covered ranges from to = (n : ℕ) → from ≤ n → n ≤ to → any (holds n) ranges ≡ true

any-insert_sorted :
    (q : BlockInterval → Bool) (r : BlockInterval) (rs : List BlockInterval)
    → any q (insert_sorted starts_before r rs) ≡ (q r || any q rs)
unfolding any insert_sorted
any-insert_sorted q r [] = refl
any-insert_sorted q r (x ∷ xs) = ground (arith, any-insert_sorted q r xs)

any-sort :
    (q : BlockInterval → Bool) (rs : List BlockInterval) → any q (sort starts_before rs) ≡ any q rs
unfolding any sort
any-sort q [] = refl
any-sort q (r ∷ rs) =
    any-insert_sorted q r (sort starts_before rs) ∙ ap (λ b. q r || b) (any-sort q rs)

starts_before-IsOrder : IsOrder starts_before
starts_before-IsOrder = record { asymm = λ a b h. ground arith; trans = λ a b c h k. ground arith }

abbrev next_after : ℕ → BlockInterval → ℕ
next_after next r = if leb next r.to_block then r.to_block + 1 else next

covers_from-Covered :
    (next to : ℕ) (rs : List BlockInterval) → covers_from next to rs ≡ true → Covered rs next to
unfolding covers_from any
covers_from-Covered next to [] h n a b = ground arith
covers_from-Covered next to (r ∷ rs) h n a b =
    let rest : covers_from (next_after next r) to rs ≡ true
        → next_after next r ≤ n
        → any (holds n) rs ≡ true =
      λ q p. covers_from-Covered (next_after next r) to rs q n p b in
    ground (arith, rest)

after_le : (next : ℕ) (r : BlockInterval) (n : ℕ) → next_after next r ≤ n → next ≤ n
after_le next r n a = ground arith

tail_holds :
    (next : ℕ) (r : BlockInterval) (rs : List BlockInterval) (n : ℕ)
    → next_after next r ≤ n
    → any (holds n) (r ∷ rs) ≡ true
    → any (holds n) rs ≡ true
unfolding any
tail_holds next r rs n a h = ground arith

later_miss :
    (n start : ℕ) (rs : List BlockInterval)
    → All (λ (y : BlockInterval). ltb y.from_block start ≡ false) rs
    → n < start
    → any (holds n) rs ≡ false
unfolding any
later_miss n start [] s h = refl
later_miss n start (r ∷ rs) s h = ground (arith, s.0, later_miss n start rs s.1 h)

covers_from_complete :
    (next to : ℕ) (rs : List BlockInterval)
    → IsSorted starts_before rs
    → next ≤ to
    → Covered rs next to
    → covers_from next to rs ≡ true
unfolding covers_from any
covers_from_complete next to [] s h c = c next (omega arith) h
covers_from_complete next to (r ∷ rs) s h c =
    let miss : next < r.from_block → any (holds next) rs ≡ false =
      later_miss next r.from_block rs s.0 in
    let here = c next (omega arith) h in
    let rest : next_after next r ≤ to → covers_from (next_after next r) to rs ≡ true = λ p.
      covers_from_complete (next_after next r) to rs s.1 p
        (λ n a b. tail_holds next r rs n a (c n (after_le next r n a) b)) in
    ground (arith, miss, here, rest)

-- The ranges cover the blocks from `from` to `to` exactly when each of these blocks lies in one of
-- the ranges, in whatever order the ranges stand and however they overlap.
pub covers_intervals-iff-Covered :
    (ranges : List BlockInterval) (from to : ℕ)
    → (covers_intervals ranges from to ≡ true) ↔ Covered ranges from to
unfolding covers_intervals
covers_intervals-iff-Covered ranges from to = elim (Bool-cases (ltb to from)) [
  | inl empty ↦ rw empty (λ h n a b. absurd (ground arith), λ c. refl)
  | inr some_block ↦ rw some_block (
    λ h n a b.
        sym (any-sort (holds n) ranges)
        ∙ covers_from-Covered from to (sort starts_before ranges) h n a b,
    λ c.
        covers_from_complete from to (sort starts_before ranges)
          (sort-IsSorted starts_before starts_before-IsOrder ranges) (ground arith)
          (λ n a b. any-sort (holds n) ranges ∙ c n a b),
  )
]
