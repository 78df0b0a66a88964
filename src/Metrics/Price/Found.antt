-- ===== src/Metrics/Price/Found.antt =====
-- About the search for a quote in src/metrics/price.ts.
use lp_monitor.Prelude.{
  ℕ, ◌≤◌, ltb, min, ◌≡◌, refl, inl, inr, Bool, true, false, not, ◌||◌, Bool-cases, Option, none,
  some, String, str_eq, eq_iff, List, [], ◌∷◌, ◌++◌, reverse, All, arith,
}
use lp_monitor.Prelude.Dict.{Dict, lookup, lookup-insert}
use mathlib.Core.Path.{subst}
use mathlib.Core.List.{reverse_aux}
use lp_monitor.Metrics.Price.{
  QuoteObservation, Swap, QuoteIndex, precedes, is_positive, upper_age_sec, by_age, find_from,
  find_preceding_quote, pair_key, bucket_or_empty, create_quote_index, add_quote,
}

-- A quote of positive amounts from before the swap, whose age is within both limits.
abbrev pub IsUsable : Swap → ℕ → QuoteObservation → Type 0
IsUsable swap max_age q =
    (precedes q.effective_at swap.ref ≡ true)
    × (is_positive q ≡ true)
    × ((age : ℕ) × (upper_age_sec swap.time q.time ≡ some age)
        × (age ≤ max_age)
        × (age ≤ q.max_age_sec))

module _ (P : QuoteObservation → Type 0) (swap : Swap) (max_age : ℕ) where
  by_age-IsUsable :
      (o : Option ℕ) (q r : QuoteObservation) (earlier : Option QuoteObservation)
      → upper_age_sec swap.time q.time ≡ o
      → precedes q.effective_at swap.ref ≡ true
      → is_positive q ≡ true
      → P q
      → (earlier ≡ some r → P r × IsUsable swap max_age r)
      → by_age o max_age q earlier ≡ some r
      → P r × IsUsable swap max_age r
  by_age-IsUsable none q r earlier e before positive p later h = later h
  by_age-IsUsable (some age) q r earlier e before positive p later h =
      elim (Bool-cases (ltb max_age age)) [
        | inl old ↦ let clash : none ≡ some r = rw old at h in cc
        | inr young ↦ elim (Bool-cases (ltb (min max_age q.max_age_sec) age)) [
          | inl stale ↦ later (rw (young, stale) at h)
          | inr fresh ↦
              let same : some q ≡ some r = rw (young, fresh) at h in
              let is : q ≡ r = cc same in
              subst (λ x. P x × IsUsable swap max_age x) is
                (p, (before, positive, (age, e, ground (arith, young), ground (arith, fresh))))
        ]
      ]

  find_from-IsUsable :
      (qs : List QuoteObservation) (r : QuoteObservation)
      → All P qs
      → find_from swap max_age qs ≡ some r
      → P r × IsUsable swap max_age r
  unfolding find_from
  find_from-IsUsable [] r ps h = cc
  find_from-IsUsable (q ∷ qs) r ps h =
      elim (Bool-cases (not (precedes q.effective_at swap.ref) || not (is_positive q))) [
        | inl skip ↦ find_from-IsUsable qs r ps.1 (rw skip at h)
        | inr take ↦
            let (before, positive) = both (precedes q.effective_at swap.ref) (is_positive q) take in
            by_age-IsUsable (upper_age_sec swap.time q.time) q r (find_from swap max_age qs) refl
              before positive ps.0 (λ k. find_from-IsUsable qs r ps.1 k) (rw take at h)
      ]
    where
      both : (a b : Bool) → (not a || not b) ≡ false → (a ≡ true) × (b ≡ true)
      both true true e = (refl, refl)
      both true false e = cc
      both false b e = cc

All-append :
    (P : QuoteObservation → Type 0) (xs ys : List QuoteObservation)
    → All P xs
    → All P ys
    → All P (xs ++ ys)
All-append P [] ys h k = k
All-append P (x ∷ xs) ys h k = (h.0, All-append P xs ys h.1 k)

unfoldable pub index_from : QuoteIndex → List QuoteObservation → QuoteIndex
index_from index [] = index
index_from index (q ∷ qs) = index_from (add_quote index q) qs

abbrev Filed : Dict (List QuoteObservation) → Type 0
Filed d =
    (key : String) → All (λ q. pair_key q.token q.quote ≡ key) (bucket_or_empty (lookup key d))

add_quote-Filed :
    (index : QuoteIndex) (q : QuoteObservation)
    → Filed index.by_pair
    → Filed (add_quote index q).by_pair
unfolding add_quote
add_quote-Filed index q h key =
    let own = pair_key q.token q.quote in
    let bucket = bucket_or_empty (lookup own index.by_pair) ++ q ∷ [] in
    rw (lookup-insert own key bucket index.by_pair) (elim (Bool-cases (str_eq own key)) [
      | inr other ↦ rw other (h key)
      | inl here ↦
          let same : own ≡ key = ground (arith, here, eq_iff own key) in
          rw here (
            subst (λ k. All (λ q. pair_key q.token q.quote ≡ k) bucket) same
              (All-append (λ q. pair_key q.token q.quote ≡ own) _ (q ∷ []) (h own) (refl, tt)))
    ])

index_from-Filed :
    (index : QuoteIndex) (qs : List QuoteObservation)
    → Filed index.by_pair
    → Filed (index_from index qs).by_pair
unfolding index_from
index_from-Filed index [] h = h
index_from-Filed index (q ∷ qs) h =
    index_from-Filed (add_quote index q) qs (add_quote-Filed index q h)

All-reverse_aux :
    (P : QuoteObservation → Type 0) (xs ys : List QuoteObservation)
    → All P xs
    → All P ys
    → All P (reverse_aux xs ys)
All-reverse_aux P [] ys h k = k
All-reverse_aux P (x ∷ xs) ys h k = All-reverse_aux P xs (x ∷ ys) h.1 (h.0, k)

empty-Filed : Filed []
unfolding lookup
empty-Filed key = tt

-- A quote that is found in an index of recorded quotes is one of the pair that was asked for, of
-- positive amounts, from before the swap, and at the end of the swap's interval at most as old as the
-- caller and the quote allow.
pub found_quote-IsUsable :
    (quotes : List QuoteObservation) (swap : Swap) (token quote : String) (max_age : ℕ)
    (q : QuoteObservation)
    → find_preceding_quote swap token quote (index_from create_quote_index quotes) max_age ≡ some q
    → (pair_key q.token q.quote ≡ pair_key token quote) × IsUsable swap max_age q
unfolding find_preceding_quote
found_quote-IsUsable quotes swap token quote max_age q h =
    let index = index_from create_quote_index quotes in
    let bucket = bucket_or_empty (lookup (pair_key token quote) index.by_pair) in
    let P = λ (r : QuoteObservation). pair_key r.token r.quote ≡ pair_key token quote in
    let filed : All P bucket =
      index_from-Filed create_quote_index quotes empty-Filed (pair_key token quote) in
    find_from-IsUsable P swap max_age (reverse bucket) q (All-reverse_aux P bucket [] filed tt) h
