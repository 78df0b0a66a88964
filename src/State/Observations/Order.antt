-- ===== src/State/Observations/Order.antt =====
-- About the order of observations of src/state/observations.ts.
use lp_monitor.Prelude.{
  ◌≤◌, ◌<◌, ◌≡◌, refl, All, Bool, true, false, inl, inr, ◌⊎◌, Option, none, some, String, not, ◌||◌,
  List, [], ◌∷◌, Outcome, ok, throw, ◌>>=◌, >>=-eq-ok, ok_inj, arith, if◌then◌else◌,
}
use mathlib.Core.Path.{subst}
use lp_monitor.Domain.{LogRef}
use lp_monitor.State.Observations.{
  EventKind, PoolEvent, PoolObservation, compare_position, is_earlier, is_stale, conflicts,
  same_pool, old_of, replace, is_other, observe_pool,
}

unfoldable pub observe_all : PoolObservation → List PoolEvent → Outcome PoolObservation
observe_all o [] = ok o
observe_all o (e ∷ es) = observe_pool o e >>= λ next. observe_all next es

-- The later observation is there if the former was, and does not stand at an earlier position.
abbrev pub NotBack : Option PoolEvent → Option PoolEvent → Type 0
NotBack none later = Unit
NotBack (some old) none = Path Bool true false
NotBack (some old) (some new) = is_earlier new.ref old.ref ≡ false

NotBack-refl : (o : Option PoolEvent) → NotBack o o
unfolding is_earlier compare_position
NotBack-refl none = tt
NotBack-refl (some e) = ground arith

earlier_trans :
    (a b c : LogRef) → is_earlier b a ≡ false → is_earlier c b ≡ false → is_earlier c a ≡ false
unfolding is_earlier compare_position
earlier_trans a b c h k = ground arith

NotBack-trans : (a b c : Option PoolEvent) → NotBack a b → NotBack b c → NotBack a c
NotBack-trans none b c h k = tt
NotBack-trans (some a) none c h k = ground arith
NotBack-trans (some a) (some b) none h k = ground arith
NotBack-trans (some a) (some b) (some c) h k = earlier_trans a.ref b.ref c.ref h k

replaced-NotBack :
    (old : Option PoolEvent) (e : PoolEvent) → is_stale e.ref old ≡ false → NotBack old (some e)
replaced-NotBack none e h = tt
replaced-NotBack (some o) e h = h

abbrev pub Forward : PoolObservation → PoolObservation → Type 0
Forward o p =
    NotBack o.last_swap p.last_swap × NotBack o.last_liquidity_action p.last_liquidity_action

replace-Forward :
    (o : PoolObservation) (kind : EventKind) (e : PoolEvent)
    → is_stale e.ref (old_of o kind) ≡ false
    → Forward o (replace o kind e)
replace-Forward o EventKind.swap e h =
    (replaced-NotBack o.last_swap e h, NotBack-refl o.last_liquidity_action)
replace-Forward o EventKind.liquidity e h =
    (NotBack-refl o.last_swap, replaced-NotBack o.last_liquidity_action e h)
replace-Forward o EventKind.other e h =
    (NotBack-refl o.last_swap, NotBack-refl o.last_liquidity_action)

guarded :
    {A : Type 0} (a b c d : Bool) (s t : String) (x y z : A)
    → (if a then ok x else if b then throw s else if c then throw t else if d then ok x else ok y)
      ≡ ok z
    → (x ≡ z) ⊎ (d ≡ false) × (y ≡ z)
guarded a b c d s t x y z h = ground arith

observe_pool-Forward :
    (o : PoolObservation) (e : PoolEvent) (p : PoolObservation)
    → observe_pool o e ≡ ok p
    → Forward o p
unfolding observe_pool
observe_pool-Forward o e p h =
    elim (guarded (is_other e.kind) (not (same_pool o.pool e.pool))
      (conflicts e.ref o.last_swap || conflicts e.ref o.last_liquidity_action)
      (is_stale e.ref (old_of o e.kind)) "Observation pool mismatch"
      "Conflicting history: rebuild observations from active logs" o (replace o e.kind e) p h) [
        | inl same ↦
            subst (Forward o) same (NotBack-refl o.last_swap, NotBack-refl o.last_liquidity_action)
        | inr (fresh, made) ↦ subst (Forward o) made (replace-Forward o e.kind e fresh)
      ]

-- `a` stands at the position of `b` or before it in the chain.
abbrev pub NotAfter : LogRef → LogRef → Type 0
NotAfter a b =
    (a.block_number < b.block_number)
    ⊎ (a.block_number ≡ b.block_number)
      × ((a.transaction_index < b.transaction_index)
          ⊎ (a.transaction_index ≡ b.transaction_index) × (a.log_index ≤ b.log_index))

earlier-NotAfter : (a b : LogRef) → is_earlier b a ≡ false → NotAfter a b
unfolding is_earlier compare_position
earlier-NotAfter a b h = ground arith

not_earlier : (a b : LogRef) → is_earlier a b ≡ true → is_earlier b a ≡ false
unfolding is_earlier compare_position
not_earlier a b h = ground arith

-- If there was an observation, there is one, of an event that does not come before it.
abbrev pub Reaches : Option PoolEvent → Option PoolEvent → Type 0
Reaches none later = Unit
Reaches (some old) none = Path Bool true false
Reaches (some old) (some new) = NotAfter old.ref new.ref

NotBack-Reaches : (a b : Option PoolEvent) → NotBack a b → Reaches a b
NotBack-Reaches none b h = tt
NotBack-Reaches (some a) none h = h
NotBack-Reaches (some a) (some b) h = earlier-NotAfter a.ref b.ref h

-- Each event of the list is reached by the observation of its kind.
abbrev pub AllReached : PoolObservation → List PoolEvent → Type 0
AllReached p = All (λ (e : PoolEvent). is_other e.kind ≡ false → Reaches (some e) (old_of p e.kind))

kept-NotBack :
    (o p : PoolObservation) (kind : EventKind)
    → Forward o p
    → NotBack (old_of o kind) (old_of p kind)
kept-NotBack o p EventKind.swap f = f.0
kept-NotBack o p EventKind.liquidity f = f.1
kept-NotBack o p EventKind.other f = tt

replaced-old :
    (o : PoolObservation) (kind : EventKind) (e : PoolEvent)
    → is_other kind ≡ false
    → some e ≡ old_of (replace o kind e) kind
replaced-old o EventKind.swap e h = refl
replaced-old o EventKind.liquidity e h = refl
replaced-old o EventKind.other e h = ground (arith, h)

stale-NotBack :
    (e : PoolEvent) (old : Option PoolEvent) → is_stale e.ref old ≡ true → NotBack (some e) old
stale-NotBack e none h = ground (arith, h)
stale-NotBack e (some o) h = not_earlier e.ref o.ref h

taken_or_stale :
    {A : Type 0} (b c d : Bool) (s t : String) (x y z : A)
    → (if b then throw s else if c then throw t else if d then ok x else ok y) ≡ ok z
    → (d ≡ true) × (x ≡ z) ⊎ (d ≡ false) × (y ≡ z)
taken_or_stale b c d s t x y z h = ground arith

observe_pool-reaches :
    (o : PoolObservation) (e : PoolEvent) (p : PoolObservation)
    → observe_pool o e ≡ ok p
    → is_other e.kind ≡ false
    → NotBack (some e) (old_of p e.kind)
unfolding observe_pool
observe_pool-reaches o e p h seen =
    elim (taken_or_stale (not (same_pool o.pool e.pool))
      (conflicts e.ref o.last_swap || conflicts e.ref o.last_liquidity_action)
      (is_stale e.ref (old_of o e.kind)) "Observation pool mismatch"
      "Conflicting history: rebuild observations from active logs" o (replace o e.kind e) p
      (rw seen at h)) [
        | inl (stale, same) ↦
            subst (λ x. NotBack (some e) (old_of x e.kind)) same (stale-NotBack e _ stale)
        | inr (fresh, made) ↦
            subst (λ x. NotBack (some e) (old_of x e.kind)) made
              (subst (NotBack (some e)) (replaced-old o e.kind e seen) (NotBack-refl (some e)))
      ]

observe_all-Forward :
    (o : PoolObservation) (events : List PoolEvent) (p : PoolObservation)
    → observe_all o events ≡ ok p
    → Forward o p
unfolding observe_all
observe_all-Forward o [] p h =
    subst (Forward o) (ok_inj h) (NotBack-refl o.last_swap, NotBack-refl o.last_liquidity_action)
observe_all-Forward o (e ∷ es) p h =
    let (next, one, rest) = >>=-eq-ok (observe_pool o e) _ h in
    let (s, l) = observe_pool-Forward o e next one in
    let (s', l') = observe_all-Forward next es p rest in
    (NotBack-trans _ _ _ s s', NotBack-trans _ _ _ l l')

observe_all-AllReached :
    (o : PoolObservation) (events : List PoolEvent) (p : PoolObservation)
    → observe_all o events ≡ ok p
    → AllReached p events
unfolding observe_all
observe_all-AllReached o [] p h = tt
observe_all-AllReached o (e ∷ es) p h =
    let (next, one, rest) = >>=-eq-ok (observe_pool o e) _ h in
    let onward = kept-NotBack next p e.kind (observe_all-Forward next es p rest) in
    (
      λ seen.
          NotBack-Reaches (some e) _
            (NotBack-trans (some e) _ _ (observe_pool-reaches o e next one seen) onward),
      observe_all-AllReached next es p rest,
    )

-- However the events of a pool arrive, as long as none is refused: an observation that is made is
-- never lost, the latest swap and the latest liquidity action do not move back in the chain, by block,
-- transaction and log, and no swap or liquidity action of the list comes after the one that is kept.
pub observe_all_latest :
    (o : PoolObservation) (events : List PoolEvent) (p : PoolObservation)
    → observe_all o events ≡ ok p
    → Reaches o.last_swap p.last_swap
      × Reaches o.last_liquidity_action p.last_liquidity_action
      × AllReached p events
observe_all_latest o events p h =
    let (swap, liquidity) = observe_all-Forward o events p h in
    (NotBack-Reaches _ _ swap, NotBack-Reaches _ _ liquidity, observe_all-AllReached o events p h)
