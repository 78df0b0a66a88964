-- ===== src/Notify/Tables/Updates.antt =====
-- How a statement of src/notify changes what a selection, a test or a count of a table's rows sees.
use lp_monitor.Prelude.{
  ◌+◌, ◌≤◌, if◌then◌else◌, ◌≡◌, Bool, true, false, ◌||◌, Bool-cases, inl, inr, List, [], ◌∷◌, ◌++◌,
  select, any, every, length, arith,
}
use lp_monitor.Notify.Tables.{Row, update, changes}

pub changes-eq-length : (p : Row → Bool) (rs : List Row) → changes p rs ≡ length (select p rs)
unfolding changes select
changes-eq-length p [] = omega arith
changes-eq-length p (r ∷ rs) = ground (arith, changes-eq-length p rs)

module _ (where_ : Row → Bool) (set : Row → Row) where
  -- A selection that neither holds the changed rows before nor after does not change.
  pub select-update :
      (q : Row → Bool)
      → ((r : Row) → where_ r ≡ true → q r ≡ false)
      → ((r : Row) → where_ r ≡ true → q (set r) ≡ false)
      → (rs : List Row) → select q (update where_ set rs) ≡ select q rs
  unfolding select update
  select-update q before after [] = ground arith
  select-update q before after (r ∷ rs) = elim (Bool-cases (where_ r)) [
    | inl h ↦ rw (h, before r h, after r h) (select-update q before after rs)
    | inr h ↦
        rw (h, select-update q before after rs) (λ i. if q r then r ∷ select q rs else select q rs)
  ]

  pub every-update :
      (p : Row → Bool)
      → ((r : Row) → p (if where_ r then set r else r) ≡ true)
      → (rs : List Row) → every p (update where_ set rs) ≡ true
  unfolding every update
  every-update p holds [] = ground arith
  every-update p holds (r ∷ rs) = rw (holds r) (every-update p holds rs)

  pub any-update :
      (q : Row → Bool)
      → ((r : Row) → q (set r) ≡ q r)
      → (rs : List Row) → any q (update where_ set rs) ≡ any q rs
  unfolding any update
  any-update q keeps [] = ground arith
  any-update q keeps (r ∷ rs) = elim (Bool-cases (where_ r)) [
    | inl h ↦ rw (h, keeps r, any-update q keeps rs) (λ i. q r || any q rs)
    | inr h ↦ rw (h, any-update q keeps rs) (λ i. q r || any q rs)
  ]

  -- A selection that every changed row enters grows by the number of the changed rows.
  pub length-select-update :
      (q : Row → Bool)
      → ((r : Row) → where_ r ≡ true → q r ≡ false)
      → ((r : Row) → where_ r ≡ true → q (set r) ≡ true)
      → (rs : List Row)
      → length (select q (update where_ set rs)) ≡ length (select q rs) + changes where_ rs
  unfolding select update changes
  length-select-update q before after [] = omega arith
  length-select-update q before after (r ∷ rs) =
      ground (arith, before r, after r, length-select-update q before after rs)

  -- An update that only takes rows out of a selection does not make it longer.
  pub length-select-le :
      (q : Row → Bool)
      → ((r : Row) → q (set r) ≡ true → q r ≡ true)
      → (rs : List Row) → length (select q (update where_ set rs)) ≤ length (select q rs)
  unfolding select update
  length-select-le q back [] = omega arith
  length-select-le q back (r ∷ rs) = ground (arith, back r, length-select-le q back rs)

pub select-append :
    (q : Row → Bool) (xs ys : List Row) → select q (xs ++ ys) ≡ select q xs ++ select q ys
unfolding select
select-append q [] ys = ground arith
select-append q (x ∷ xs) ys = elim (Bool-cases (q x)) [
  | inl h ↦ rw (h, select-append q xs ys) (λ i. x ∷ (select q xs ++ select q ys))
  | inr h ↦ rw (h) (select-append q xs ys)
]
