-- ===== src/Notify/Outbox/Claimed.antt =====
-- About the rows that `deliverPending` of src/notify/outbox.ts offers.
use lp_monitor.Prelude.{
  ℕ, zero, suc, ◌+◌, ◌≤◌, ◌≡◌, refl, if◌then◌else◌, Bool, true, false, not, ◌&&◌, ◌||◌, Option,
  none, some, String, List, [], ◌∷◌, select, every, All, take, length, ok, throw, arith,
}
use mathlib.Core.List.{Mem, mem-cons_self, mem-cons_of_mem}
use mathlib.Core.Path.{subst}
use lp_monitor.Notify.Tables.{Row, Db}
use lp_monitor.Notify.Outbox.{
  Sink, Pass, DeliverOptions, is_claimable, claimed_rows, visit, visit_all, deliver_pending,
  limited, in_scope, start_pass, max_age_of,
}
use lp_monitor.Notify.Outbox.Passes.{Visited, visit-Visited}

-- The counts of a pass, and what the offered rows have in common.
record IsCounted (Claimed : Row → Type 0) (bound : ℕ) (p : Pass) : Type 0 where
  adds_up : p.sent + p.failed ≡ length p.offered
  bounded : length p.offered ≤ bound
  claimed : All Claimed p.offered

Visited-IsCounted :
    (Claimed : Row → Type 0) (n : ℕ) (r : Row) (p q : Pass)
    → Visited r p q
    → Claimed r
    → IsCounted Claimed n p
    → IsCounted Claimed (suc n) q
Visited-IsCounted Claimed n r p q (Visited.passed_by b s f o) good c = record {
  adds_up = rw (s, f, o) c.adds_up;
  bounded = rw o (omega (arith, c.bounded));
  claimed = rw o c.claimed;
}
Visited-IsCounted Claimed n r p q (Visited.accepted free b s f o) good c = record {
  adds_up = rw (s, f, o) (omega (arith, c.adds_up));
  bounded = rw o (omega (arith, c.bounded));
  claimed = rw o (good, c.claimed);
}
Visited-IsCounted Claimed n r p q (Visited.refused free b s f o) good c = record {
  adds_up = rw (s, f, o) (omega (arith, c.adds_up));
  bounded = rw o (omega (arith, c.bounded));
  claimed = rw o (good, c.claimed);
}

and_true : (a b : Bool) → (a && b) ≡ true → (a ≡ true) × (b ≡ true)
and_true a b h = ground arith

visit_all-IsCounted :
    (sink : Sink) (now age : ℕ) (Claimed : Row → Type 0) (n : ℕ) (rows : List Row) (p : Pass)
    → All Claimed rows
    → IsCounted Claimed n p
    → IsCounted Claimed (length rows + n) (visit_all sink now age rows p)
unfolding visit_all
visit_all-IsCounted sink now age Claimed n [] p good c =
    subst (λ k. IsCounted Claimed k p) (plus_zero n) c
  where
    plus_zero : (k : ℕ) → k ≡ 0 + k
    plus_zero k = omega arith
visit_all-IsCounted sink now age Claimed n (r ∷ rows) p good c =
    subst (λ k. IsCounted Claimed k (visit_all sink now age rows (visit sink now age r p)))
      (shift (length rows))
      (visit_all-IsCounted sink now age Claimed (suc n) rows _ good.1
        (Visited-IsCounted Claimed n r p _ (visit-Visited sink now age r p) good.0 c))
  where
    shift : (k : ℕ) → k + suc n ≡ suc k + n
    shift k = omega arith

every-select :
    (p q : Row → Bool) (rows : List Row)
    → ((r : Row) → p r ≡ true → q r ≡ true)
    → every q (select p rows) ≡ true
unfolding every select
every-select p q [] h = refl
every-select p q (r ∷ rows) h = ground (arith, h r, every-select p q rows h)

every-take :
    (q : Row → Bool) (n : ℕ) (rows : List Row) → every q rows ≡ true → every q (take n rows) ≡ true
unfolding every
every-take q zero rows h = refl
every-take q (suc n) [] h = h
every-take q (suc n) (r ∷ rows) h = ground (arith, every-take q n rows)

length-take_le : (n : ℕ) (rows : List Row) → length (take n rows) ≤ n
length-take_le zero rows = omega arith
length-take_le (suc n) [] = omega arith
length-take_le (suc n) (r ∷ rows) = omega (arith, length-take_le n rows)

limited-every :
    (q : Row → Bool) (n : Option ℕ) (rows : List Row)
    → every q rows ≡ true
    → every q (limited n rows) ≡ true
limited-every q none rows h = h
limited-every q (some n) rows h = every-take q n rows h

-- A row may be offered: live, pending or failed, not of a silent scope, of the asked scope, and
-- withdrawn if only withdrawals were asked for.
abbrev pub may_offer : Db → DeliverOptions → Row → Bool
may_offer db o r =
    is_claimable db r && in_scope o.scope_id r && (not o.retracted_only || r.payload.retracted)

claimed-every : (db : Db) (o : DeliverOptions) → every (may_offer db o) (claimed_rows db o) ≡ true
unfolding claimed_rows
claimed-every db o = limited-every _ o.limit _ (every-select _ _ db.outbox (λ r h. ground arith))

abbrev pub IsOffered : Db → DeliverOptions → Row → Type 0
IsOffered db o r = Mem r (claimed_rows db o) × (may_offer db o r ≡ true)

every-All :
    (test : Row → Bool) (all rows : List Row)
    → every test rows ≡ true
    → ((r : Row) → Mem r rows → Mem r all)
    → All (λ r. Mem r all × (test r ≡ true)) rows
unfolding every
every-All test all [] h inside = tt
every-All test all (r ∷ rows) h inside =
    let (here, rest) = and_true _ _ h in
    (
      (inside r mem-cons_self, here),
      every-All test all rows rest (λ x m. inside x (mem-cons_of_mem r m)),
    )

start-IsCounted : (Claimed : Row → Type 0) (db : Db) → IsCounted Claimed 0 (start_pass db)
start-IsCounted Claimed db = record { adds_up = refl; bounded = omega arith; claimed = tt }

guards-pass :
    {A : Type 0} (a b : Bool) (s t : String) (x y : A)
    → (if a then throw s else if b then throw t else ok x) ≡ ok y
    → (a ≡ false) × (b ≡ false) × (x ≡ y)
guards-pass a b s t x y h = ground arith

-- A pass that does not throw was alone and outside a transaction, frees the outbox again, and counts
-- each offered row once as sent or failed; it has offered at most as many rows as it claimed, each
-- among the claimed ones: live, pending or failed when the pass began, of the asked scope and not of
-- a silent one, and withdrawn if only withdrawals were asked for.
pub deliver_pending-offers_claimed :
    (sink : Sink) (o : DeliverOptions) (db : Db) (p : Pass)
    → deliver_pending sink o db ≡ ok p
    → (db.in_transaction ≡ false)
      × (db.draining ≡ false)
      × (p.db.draining ≡ false)
      × (p.sent + p.failed ≡ length p.offered)
      × (length p.offered ≤ length (claimed_rows db o))
      × All (IsOffered db o) p.offered
unfolding deliver_pending
deliver_pending-offers_claimed sink o db p e =
    let rows = claimed_rows db o in
    let q = visit_all sink o.now_ms (max_age_of o) rows (start_pass db) in
    let (outside, alone, done) =
      guards-pass db.in_transaction db.draining _ _
        (record q { db = record q.db { draining = false } }) p e in
    let c =
      visit_all-IsCounted sink o.now_ms (max_age_of o) _ 0 rows (start_pass db)
        (every-All (may_offer db o) rows rows (claimed-every db o) (λ r m. m))
        (start-IsCounted _ db) in
    rw (← done) (outside, alone, refl, c.adds_up, omega (arith, c.bounded), c.claimed)
