-- ===== src/Ingest/Reorg/Ended.antt =====
-- About `findMatchingCheckpoint` of src/ingest/reorg.ts: the fuel of its loops.
use lp_monitor.Prelude.{
  ℕ, zero, suc, ◌+◌, ◌-◌, ◌*◌, ◌/◌, ◌==◌, ◌≤◌, ◌<◌, ltb, leb, if◌then◌else◌, ◌≡◌, refl, ◌∙◌, ap,
  Bool, true, false, Bool-cases, inl, inr, Option, none, some, List, [], ◌∷◌, length, sort, Outcome,
  ok, ◌>>=◌, arith,
}
use lp_monitor.Domain.{BlockAnchor}
use lp_monitor.Ingest.Reorg.{
  Reader, Search, is_lower, cached, compared, at_index, ask, matches, bisect, gallop, search_from,
  search_sorted, find_matching_checkpoint,
}
use lp_monitor.Ingest.Reorg.Found.{Confirmed, find-Confirmed}

-- A reader that answers every call with a block of the height that was asked for.
abbrev pub Answers : Reader → Type 0
Answers reader =
    (k n : ℕ) → (current : BlockAnchor) × (reader k n ≡ ok current) × (current.number ≡ n)

abbrev Ends {ℓ} : {A : Type ℓ} → Outcome A → Type ℓ
Ends {A = A} o = (a : A) × (o ≡ ok a)

chosen-Ends :
    (o : Option Bool) (x y : Outcome (Option BlockAnchor))
    → Ends x
    → Ends y
    → Ends (elim o [ none ↦ ok none | some true ↦ x | some false ↦ y ])
chosen-Ends none x y p q = (none, refl)
chosen-Ends (some true) x y p q = p
chosen-Ends (some false) x y p q = q

started-Ends :
    (o : Option Bool) (x y : Outcome (Option BlockAnchor))
    → Ends x
    → Ends y
    → Ends (elim o [ some true ↦ x | some false ↦ y | none ↦ y ])
started-Ends none x y p q = q
started-Ends (some true) x y p q = p
started-Ends (some false) x y p q = q

then-Ends :
    {A : Type 0} (m : Outcome A) (f : A → Outcome (Option BlockAnchor))
    → Ends m
    → ((a : A) → Ends (f a))
    → Ends (m >>= f)
then-Ends m f p q = rw p.1 (q p.0)

unless-Ends :
    (b : Bool) (y : Outcome (Option BlockAnchor))
    → (b ≡ false → Ends y)
    → Ends (if b then ok none else y)
unless-Ends true y q = (none, refl)
unless-Ends false y q = q refl

module _ (reader : Reader) (ordered : List BlockAnchor) (first : BlockAnchor) (max_calls : ℕ)
    (answers : Answers reader) where
  ask-Ends :
      (index : ℕ) (s : Search) (o : Option Bool)
      → Ends (ask reader ordered first max_calls index s o)
  ask-Ends index s (some found) = (_, refl)
  ask-Ends index s none = elim (Bool-cases (leb max_calls s.calls)) [
    | inl spent ↦ rw spent (_, refl)
    | inr within ↦
        let (current, answered, height) =
          answers s.calls (at_index reader ordered first max_calls index).number in
        rw (within, answered) (same_height current height)
  ]
    where
      same_height :
          (current : BlockAnchor)
          → current.number ≡ (at_index reader ordered first max_calls index).number
          → Ends (compared index (at_index reader ordered first max_calls index) s current)
      same_height current h =
          let equal : (current.number == (at_index reader ordered first max_calls index).number)
              ≡ true =
            ground arith in
          rw equal (_, refl)

  matches-Ends : (index : ℕ) (s : Search) → Ends (matches reader ordered first max_calls index s)
  unfolding matches
  matches-Ends index s = ask-Ends index s (cached index s.cache)

  bisect-Ends :
      (fuel low high : ℕ) (s : Search)
      → high - low < fuel
      → Ends (bisect reader ordered first max_calls fuel low high s)
  unfolding bisect
  bisect-Ends zero low high s h = absurd (omega arith)
  bisect-Ends (suc fuel) low high s h = elim (Bool-cases (leb (high - low) 1)) [
    | inl done ↦ rw done (_, refl)
    | inr more ↦
        let wide : 1 < high - low = ground arith in
        rw more (
          then-Ends _ _ (matches-Ends ((low + high) / 2) s) (λ r.
            chosen-Ends r.0 _ _
              (bisect-Ends fuel ((low + high) / 2) high r.1 (omega (arith, h, wide)))
              (bisect-Ends fuel low ((low + high) / 2) r.1 (omega (arith, h, wide)))))
  ]

  gallop-Ends :
      (fuel last step failed : ℕ) (s : Search)
      → 1 ≤ fuel
      → 1 ≤ step
      → last < step + fuel
      → Ends (gallop reader ordered first max_calls fuel last step failed s)
  unfolding gallop
  gallop-Ends zero last step failed s one big enough = absurd (omega arith)
  gallop-Ends (suc fuel) last step failed s one big enough =
      then-Ends _ _ (matches-Ends (last - step) s) (λ r.
        chosen-Ends r.0 _ _ (bisect-Ends (suc failed) (last - step) failed r.1 (omega arith)) (
          unless-Ends (last - step == 0) _ (λ far.
            let left : 0 < last - step = ground arith in
            gallop-Ends fuel last (step * 2) (last - step) r.1 (omega (arith, left, enough))
              (omega (arith, big)) (omega (arith, left, enough, big)))))

  search_from-Ends : (last : ℕ) → Ends (search_from reader ordered first max_calls last)
  unfolding search_from
  search_from-Ends last = then-Ends _ _ (matches-Ends last (record { calls = 0; cache = [] })) (λ r.
      started-Ends r.0 _ _ (_, refl)
        (gallop-Ends (suc last) last 1 last r.1 (omega arith) (omega arith) (omega arith)))

-- With a budget of at most 32 calls and a reader that answers every call with a block of the height
-- it was asked for, the search ends without an error; and a checkpoint that it returns was confirmed
-- in one of the calls of the budget: the answer has its height, its hash up to the case of its
-- letters, and its time.
pub find_matching_checkpoint_lem :
    (reader : Reader) (checkpoints : List BlockAnchor) (max_calls : ℕ)
    → Answers reader
    → max_calls ≤ 32
    → (result : Option BlockAnchor) × (find_matching_checkpoint reader checkpoints max_calls
        ≡ ok result)
      × ((a : BlockAnchor) → result ≡ some a → Confirmed reader max_calls a)
find_matching_checkpoint_lem reader checkpoints max_calls answers budget =
    let (result, ends) = whole in
    (result, ends, λ a e. find-Confirmed reader checkpoints max_calls a (ends ∙ ap ok e))
  where
    sorted : (ordered : List BlockAnchor) → Ends (search_sorted reader max_calls ordered)
    sorted [] = (none, refl)
    sorted (x ∷ xs) =
        unless-Ends (max_calls == 0) _
          (λ some_calls. search_from-Ends reader (x ∷ xs) x max_calls answers (length xs))

    whole : Ends (find_matching_checkpoint reader checkpoints max_calls)
    whole =
        let within : ltb 32 max_calls ≡ false = ground arith in
        unfold find_matching_checkpoint in rw within (sorted (sort is_lower checkpoints))
