-- ===== src/Signals/Engine/Counting.antt =====
-- About the windows that src/signals/engine.ts has counted.
use lp_monitor.Prelude.{
  ℕ, ltb, ◌≡◌, ◌≢◌, refl, ap, ◌∙◌, inl, inr, Bool, true, false, Bool-cases, Option, none, some,
  is_some, List, [], ◌∷◌, last, select, arith,
}
use mathlib.Core.Path.{subst}
use lp_monitor.Signals.Config.{SignalConfig}
use lp_monitor.Signals.Types.{SignalSnapshot, SignalInput}
use lp_monitor.Signals.Engine.{Bucket, five_windows}
use lp_monitor.Signals.Engine.Cooling.{
  Cooled, is_fresh, is_newer, cool, cool_latest, cool_rolling, cool_bucket, cool_buckets, uncounted,
}

last-cons : {A : Type 0} (x : A) (xs : List A) (y : A) → last xs ≡ some y → last (x ∷ xs) ≡ some y
unfolding last
last-cons x [] y h = cc
last-cons x (z ∷ zs) y h = h

pub last-select :
    {A : Type 0} (p : A → Bool) (xs : List A) (x : A)
    → last xs ≡ some x
    → p x ≡ true
    → last (select p xs) ≡ some x
unfolding select last
last-select p [] x h t = cc
last-select p (y ∷ []) x h t = let e : p y ≡ true = cc in rw e h
last-select p (y ∷ z ∷ zs) x h t = elim (Bool-cases (p y)) [
  | inl kept ↦ rw kept (last-cons y (select p (z ∷ zs)) x (last-select p (z ∷ zs) x h t))
  | inr dropped ↦ rw dropped (last-select p (z ∷ zs) x h t)
]

module _ (config : SignalConfig) where
  cool_bucket-counts :
      (b : Bucket) (c : Cooled) → (cool_bucket config b c).next.last_five_end_sec ≡ some b.end_sec
  unfolding cool_bucket
  cool_bucket-counts b c = ground arith

  cool_buckets-counts :
      (bs : List Bucket) (b : Bucket) (c : Cooled)
      → last bs ≡ some b
      → (cool_buckets config bs c).next.last_five_end_sec ≡ some b.end_sec
  unfolding cool_buckets last
  cool_buckets-counts [] b c h = cc
  cool_buckets-counts (x ∷ []) b c h =
      cool_bucket-counts x c
      ∙ ap (λ (o : Option Bucket). elim o [ none ↦ none | some y ↦ some y.end_sec ]) h
  cool_buckets-counts (x ∷ y ∷ ys) b c h = cool_buckets-counts (y ∷ ys) b (cool_bucket config x c) h

  cool_rolling-counts :
      (five : List Bucket) (latest : Bucket) (s : SignalSnapshot)
      → (cool_rolling config five latest s).next.last_five_end_sec ≡ some latest.end_sec
  unfolding cool_rolling
  cool_rolling-counts five latest s = ground arith

  uncounted-last :
      (five : List Bucket) (latest : Bucket) (seen : Option ℕ)
      → last five ≡ some latest
      → is_newer latest.end_sec seen ≡ true
      → last (uncounted five latest seen) ≡ some latest
  unfolding uncounted last
  uncounted-last five latest none h newer = refl
  uncounted-last five latest (some seen) h newer =
      last-select (λ b. ltb seen b.end_sec) five latest h newer

  not_fresh : (input : SignalInput) (s : SignalSnapshot) → is_fresh input none s ≢ true
  unfolding is_fresh
  not_fresh input s e = cc

  fresh-newer :
      (input : SignalInput) (s : SignalSnapshot) (latest : Bucket)
      → is_fresh input (some latest) s ≡ true
      → is_newer latest.end_sec s.last_five_end_sec ≡ true
  unfolding is_fresh
  fresh-newer input s latest fresh = ground arith

  pub cool-counts :
      (input : SignalInput) (s : SignalSnapshot) (latest : Bucket)
      → last (five_windows input) ≡ some latest
      → is_fresh input (some latest) s ≡ true
      → (cool input config s).next.last_five_end_sec ≡ some latest.end_sec
  unfolding cool cool_latest
  cool-counts input s latest h fresh =
      rw (h, fresh)
        (elim (Bool-cases (is_some input.metrics.rolling)) [
          | inl rolling ↦ rw rolling (cool_rolling-counts (five_windows input) latest s)
          | inr natural ↦ rw natural (
              cool_buckets-counts (uncounted (five_windows input) latest s.last_five_end_sec) latest
                _
                (uncounted-last (five_windows input) latest s.last_five_end_sec h
                  (fresh-newer input s latest fresh)))
        ])

  pub fresh-counted :
      (input : SignalInput) (s : SignalSnapshot)
      → is_fresh input (last (five_windows input)) s ≡ true
      → is_some (cool input config s).next.last_five_end_sec ≡ true
  fresh-counted input s fresh = split (last (five_windows input)) refl
    where
      split :
          (o : Option Bucket)
          → last (five_windows input) ≡ o
          → is_some (cool input config s).next.last_five_end_sec ≡ true
      split none e = absurd (not_fresh input s (subst (λ o. is_fresh input o s ≡ true) e fresh))
      split (some latest) e =
          rw (cool-counts input s latest e (subst (λ o. is_fresh input o s ≡ true) e fresh)) refl

  pub cool-stale :
      (input : SignalInput) (s : SignalSnapshot)
      → is_fresh input (last (five_windows input)) s ≡ false
      → cool input config s ≡ record { next = s; cooled = false }
  unfolding cool cool_latest
  cool-stale input s stale = stays (last (five_windows input)) stale
    where
      stays :
          (o : Option Bucket)
          → is_fresh input o s ≡ false
          → cool_latest input config s o ≡ record { next = s; cooled = false }
      stays none h = refl
      stays (some latest) h = rw h refl
