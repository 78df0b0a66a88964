-- ===== src/Ingest/Reorg/Found.antt =====
-- About `findMatchingCheckpoint` of src/ingest/reorg.ts: the calls behind a checkpoint.
use lp_monitor.Prelude.{
  ℕ, zero, suc, ◌+◌, ◌-◌, ◌*◌, ◌/◌, ◌==◌, ◌<◌, ltb, leb, if◌then◌else◌, ◌≡◌, refl, sym, ◌∙◌, Bool,
  true, false, Bool-cases, inl, inr, Option, none, some, List, [], ◌∷◌, length, sort, Outcome, ok,
  >>=-eq-ok, ok_inj, arith,
}
use mathlib.Core.Path.{subst}
use lp_monitor.Domain.{BlockAnchor}
use lp_monitor.Ingest.Reorg.{
  Reader, Search, is_lower, cached, same_block, compared, at_index, ask, matches, bisect, gallop,
  search_from, search_sorted, find_matching_checkpoint,
}

-- The reader confirmed the checkpoint in one of the first `n` calls.
abbrev pub Confirmed : Reader → ℕ → BlockAnchor → Type 0
Confirmed reader n a =
    (k : ℕ) × (current : BlockAnchor) × (k < n)
    × (reader k a.number ≡ ok current)
    × (current.number ≡ a.number)
    × (same_block current a ≡ true)

anchor_inj : {a b : BlockAnchor} → some a ≡ some b → a ≡ b
anchor_inj e = cc

answer_inj : {b : Bool} → some b ≡ some true → b ≡ true
answer_inj e = cc

-- The branches behind an answer of the reader.
chosen :
    {P : Type 0} (o : Option Bool) (x y : Outcome (Option BlockAnchor)) (a : BlockAnchor)
    → (o ≡ some true → x ≡ ok (some a) → P)
    → (y ≡ ok (some a) → P)
    → (elim o [ none ↦ ok none | some true ↦ x | some false ↦ y ]) ≡ ok (some a)
    → P
chosen none x y a p q e = cc
chosen (some true) x y a p q e = p refl e
chosen (some false) x y a p q e = q e

started :
    (P : BlockAnchor → Type 0) (o : Option Bool) (b : BlockAnchor)
    (y : Outcome (Option BlockAnchor)) (a : BlockAnchor)
    → (o ≡ some true → P b)
    → (y ≡ ok (some a) → P a)
    → (elim o [ some true ↦ ok (some b) | some false ↦ y | none ↦ y ]) ≡ ok (some a)
    → P a
started P none b y a p q e = q e
started P (some true) b y a p q e = subst P (anchor_inj (ok_inj e)) (p refl)
started P (some false) b y a p q e = q e

not_first :
    (b : Bool) (y : Outcome (Option BlockAnchor)) (a : BlockAnchor)
    → (if b then ok none else y) ≡ ok (some a)
    → y ≡ ok (some a)
not_first true y a e = cc
not_first false y a e = e

module _ (reader : Reader) (ordered : List BlockAnchor) (first : BlockAnchor) (max_calls : ℕ) where
  abbrev place : ℕ → BlockAnchor
  place i = at_index reader ordered first max_calls i

  -- Every answer kept as a match was confirmed within the budget.
  Sound : Search → Type 0
  Sound s = (i : ℕ) → cached i s.cache ≡ some true → Confirmed reader max_calls (place i)

  compared-facts :
      (index : ℕ) (s : Search) (current : BlockAnchor) (r : Option Bool × Search)
      → compared index (place index) s current ≡ ok r
      → (current.number ≡ (place index).number)
        × (r ≡ (
          some (same_block current (place index)),
          record s {
            calls = s.calls + 1;
            cache = (index, same_block current (place index)) ∷ s.cache;
          },
        ))
  compared-facts index s current r e = elim (Bool-cases (current.number == (place index).number)) [
    | inl same ↦ (ground arith, sym (ok_inj (rw same at e)))
    | inr other ↦ absurd (ground (arith, rw other at e))
  ]

  extended-Sound :
      (index : ℕ) (found : Bool) (calls : ℕ) (s : Search)
      → (found ≡ true → Confirmed reader max_calls (place index))
      → Sound s
      → Sound (record s { calls = calls; cache = (index, found) ∷ s.cache })
  unfolding Sound cached
  extended-Sound index found calls s c h i e = elim (Bool-cases (index == i)) [
    | inl same ↦
        subst (λ j. Confirmed reader max_calls (place j)) (ground arith)
          (c (ground (arith, rw same at e)))
    | inr other ↦ h i (rw other at e)
  ]

  abbrev Answered : ℕ → Option Bool × Search → Type 0
  Answered index r = Sound r.1 × (r.0 ≡ some true → Confirmed reader max_calls (place index))

  ask-Answered :
      (index : ℕ) (s : Search) (r : Option Bool × Search) (o : Option Bool)
      → cached index s.cache ≡ o
      → ask reader ordered first max_calls index s o ≡ ok r
      → Sound s
      → Answered index r
  unfolding Sound
  ask-Answered index s r (some found) known e h =
      subst (Answered index) (ok_inj e) (h, λ t. h index (known ∙ t))
  ask-Answered index s r none new e h = elim (Bool-cases (leb max_calls s.calls)) [
    | inl spent ↦ subst (Answered index) (ok_inj (rw spent at e)) (h, λ t. cc)
    | inr within ↦
        let (current, answered, rest) =
          >>=-eq-ok (reader s.calls (place index).number) _ (rw within at e) in
        let (same, made) = compared-facts index s current r rest in
        let confirmed : same_block current (place index) ≡ true
            → Confirmed reader max_calls (place index) =
          λ t. (s.calls, current, ground arith, answered, same, t) in
        subst (Answered index) (sym made) (
          extended-Sound index (same_block current (place index)) (s.calls + 1) s confirmed h,
          λ t. confirmed (answer_inj t),
        )
  ]

  matches-Answered :
      (index : ℕ) (s : Search) (r : Option Bool × Search)
      → matches reader ordered first max_calls index s ≡ ok r
      → Sound s
      → Answered index r
  unfolding matches
  matches-Answered index s r e h = ask-Answered index s r _ refl e h

  bisect-Confirmed :
      (fuel low high : ℕ) (s : Search) (a : BlockAnchor)
      → Sound s
      → Confirmed reader max_calls (place low)
      → bisect reader ordered first max_calls fuel low high s ≡ ok (some a)
      → Confirmed reader max_calls a
  unfolding bisect
  bisect-Confirmed zero low high s a h c e = cc
  bisect-Confirmed (suc fuel) low high s a h c e = elim (Bool-cases (leb (high - low) 1)) [
    | inl done ↦ subst (Confirmed reader max_calls) (anchor_inj (ok_inj (rw done at e))) c
    | inr more ↦
        let (r, answered, rest) =
          >>=-eq-ok (matches reader ordered first max_calls ((low + high) / 2) s) _
            (rw more at e) in
        let (sound, here) = matches-Answered _ s r answered h in
        chosen r.0 (bisect reader ordered first max_calls fuel ((low + high) / 2) high r.1)
          (bisect reader ordered first max_calls fuel low ((low + high) / 2) r.1) a
          (λ t. bisect-Confirmed fuel ((low + high) / 2) high r.1 a sound (here t))
          (bisect-Confirmed fuel low ((low + high) / 2) r.1 a sound c) rest
  ]

  gallop-Confirmed :
      (fuel last step failed : ℕ) (s : Search) (a : BlockAnchor)
      → Sound s
      → gallop reader ordered first max_calls fuel last step failed s ≡ ok (some a)
      → Confirmed reader max_calls a
  unfolding gallop
  gallop-Confirmed zero last step failed s a h e = cc
  gallop-Confirmed (suc fuel) last step failed s a h e =
      let (r, answered, rest) =
        >>=-eq-ok (matches reader ordered first max_calls (last - step) s) _ e in
      let (sound, here) = matches-Answered (last - step) s r answered h in
      chosen r.0 (bisect reader ordered first max_calls (suc failed) (last - step) failed r.1)
        (if last - step == 0
          then ok none
          else gallop reader ordered first max_calls fuel last (step * 2) (last - step) r.1)
        a (λ t. bisect-Confirmed (suc failed) (last - step) failed r.1 a sound (here t))
        (λ q.
          gallop-Confirmed fuel last (step * 2) (last - step) r.1 a sound
            (not_first (last - step == 0) _ a q))
        rest

  search_from-Confirmed :
      (last : ℕ) (a : BlockAnchor)
      → search_from reader ordered first max_calls last ≡ ok (some a)
      → Confirmed reader max_calls a
  unfolding search_from
  search_from-Confirmed last a e =
      let (r, answered, rest) =
        >>=-eq-ok (matches reader ordered first max_calls last (record { calls = 0; cache = [] })) _
          e in
      let (sound, here) = matches-Answered last _ r answered none_kept in
      started (Confirmed reader max_calls) r.0 (place last)
        (gallop reader ordered first max_calls (suc last) last 1 last r.1) a here
        (gallop-Confirmed (suc last) last 1 last r.1 a sound) rest
    where
      none_kept : Sound (record { calls = 0; cache = [] })
      none_kept = unfold Sound cached in λ i q. cc

pub find-Confirmed :
    (reader : Reader) (checkpoints : List BlockAnchor) (max_calls : ℕ) (a : BlockAnchor)
    → find_matching_checkpoint reader checkpoints max_calls ≡ ok (some a)
    → Confirmed reader max_calls a
unfolding find_matching_checkpoint
find-Confirmed reader checkpoints max_calls a e = elim (Bool-cases (ltb 32 max_calls)) [
  | inl over ↦ cc (rw over at e)
  | inr within ↦ sorted (sort is_lower checkpoints) (rw within at e)
]
  where
    sorted :
        (ordered : List BlockAnchor)
        → search_sorted reader max_calls ordered ≡ ok (some a)
        → Confirmed reader max_calls a
    sorted [] q = cc
    sorted (x ∷ xs) q =
        search_from-Confirmed reader (x ∷ xs) x max_calls (length xs) a
          (not_first (max_calls == 0) _ a q)
