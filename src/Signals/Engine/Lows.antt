-- ===== src/Signals/Engine/Lows.antt =====
-- About the rolling count of low windows of src/signals/engine.ts.
use lp_monitor.Prelude.{
  ℕ, zero, suc, ◌+◌, ◌-◌, ◌≤◌, ◌==◌, ◌≡◌, ◌↔◌, inl, inr, true, false, not, ◌&&◌, Bool-cases, List,
  [], ◌∷◌, reverse, arith,
}
use mathlib.Core.Path.{subst}
use lp_monitor.Signals.Config.{SignalConfig}
use lp_monitor.Signals.Types.{SignalSnapshot}
use lp_monitor.Signals.Engine.{Bucket}
use lp_monitor.Signals.Engine.Cooling.{is_low, starts_before_heat, count_lows, cool_rolling}

-- The first `n` windows are low, begin after the heat, and meet end to start from `boundary` back.
abbrev pub IsLowChain : SignalConfig → SignalSnapshot → ℕ → ℕ → List Bucket → Type 0
IsLowChain config s zero boundary bs = Unit
IsLowChain config s (suc n) boundary [] = ⊥
IsLowChain config s (suc n) boundary (b ∷ bs) =
    (b.end_sec ≡ boundary)
    × (is_low config s b ≡ true)
    × (starts_before_heat s.last_heat_sec b.start_sec ≡ false)
    × IsLowChain config s n b.start_sec bs

module _ (config : SignalConfig) (s : SignalSnapshot) where
  count_lows-le :
      (boundary lows : ℕ) (bs : List Bucket) → lows ≤ count_lows config s boundary lows bs
  unfolding count_lows
  count_lows-le boundary lows [] = omega arith
  count_lows-le boundary lows (b ∷ bs) = ground (arith, count_lows-le b.start_sec (lows + 1) bs)

  count_lows-chain :
      (boundary lows : ℕ) (bs : List Bucket)
      → IsLowChain config s (count_lows config s boundary lows bs - lows) boundary bs
  unfolding count_lows
  count_lows-chain boundary lows [] =
      subst (λ n. IsLowChain config s n boundary []) (zero_diff lows) tt
    where
      zero_diff : (n : ℕ) → zero ≡ n - n
      zero_diff n = omega arith
  count_lows-chain boundary lows (b ∷ bs) =
      elim (Bool-cases (
        (b.end_sec == boundary)
        && not (starts_before_heat s.last_heat_sec b.start_sec)
        && is_low config s b)) [
          | inr stop ↦
              rw stop (subst (λ n. IsLowChain config s n boundary (b ∷ bs)) (zero_diff lows) tt)
          | inl low ↦ rw low (
              subst (λ n. IsLowChain config s n boundary (b ∷ bs))
                (one_more lows _ (count_lows-le b.start_sec (lows + 1) bs))
                (
                  ground (arith, low),
                  ground (arith, low),
                  ground (arith, low),
                  count_lows-chain b.start_sec (lows + 1) bs,
                ))
        ]
    where
      zero_diff : (n : ℕ) → zero ≡ n - n
      zero_diff n = omega arith

      one_more : (n m : ℕ) → n + 1 ≤ m → suc (m - (n + 1)) ≡ m - n
      one_more n m h = omega arith

  chain-le-count :
      (n boundary lows : ℕ) (bs : List Bucket)
      → IsLowChain config s n boundary bs
      → lows + n ≤ count_lows config s boundary lows bs
  unfolding count_lows
  chain-le-count zero boundary lows bs chain = omega (arith, count_lows-le boundary lows bs)
  chain-le-count (suc n) boundary lows [] chain = elim chain [ ]
  chain-le-count (suc n) boundary lows (b ∷ bs) chain =
      ground (arith, chain.0, chain.1, chain.2, chain-le-count n b.start_sec (lows + 1) bs chain.3)

  chain-shorter :
      (n m boundary : ℕ) (bs : List Bucket)
      → n ≤ m
      → IsLowChain config s m boundary bs
      → IsLowChain config s n boundary bs
  chain-shorter zero m boundary bs h chain = tt
  chain-shorter (suc n) zero boundary bs h chain = absurd (omega arith)
  chain-shorter (suc n) (suc m) boundary [] h chain = chain
  chain-shorter (suc n) (suc m) boundary (b ∷ bs) h chain =
      (chain.0, chain.1, chain.2, chain-shorter n m b.start_sec bs (omega arith) chain.3)

  count-minus-zero :
      (boundary : ℕ) (bs : List Bucket)
      → IsLowChain config s (count_lows config s boundary 0 bs) boundary bs
  count-minus-zero boundary bs =
      subst (λ n. IsLowChain config s n boundary bs) (minus_zero _) (count_lows-chain boundary 0 bs)
    where
      minus_zero : (n : ℕ) → n - 0 ≡ n
      minus_zero n = omega arith

cooled-enough :
    (config : SignalConfig) (five : List Bucket) (latest : Bucket) (s : SignalSnapshot)
    → ((cool_rolling config five latest s).cooled ≡ true)
      ↔ (config.cooling.enabled ≡ true)
        × (config.cooling.buckets ≤ count_lows config s latest.end_sec 0 (reverse five))
unfolding cool_rolling
cooled-enough config five latest s = (λ h. ground (arith, h), λ h. ground (arith, h.0, h.1))

-- Fresh rolling windows cool a pool exactly when cooling is enabled and the configured number of
-- windows, from the latest one back, are low, begin no earlier than the heat, and meet end to start.
pub cool_rolling-iff-chain :
    (config : SignalConfig) (five : List Bucket) (latest : Bucket) (s : SignalSnapshot)
    → ((cool_rolling config five latest s).cooled ≡ true)
      ↔ (config.cooling.enabled ≡ true)
        × IsLowChain config s config.cooling.buckets latest.end_sec (reverse five)
cool_rolling-iff-chain config five latest s = (
  λ h.
      let (on, enough) = (cooled-enough config five latest s).0 h in
      (
        on,
        chain-shorter config s config.cooling.buckets _ latest.end_sec (reverse five) enough
            (count-minus-zero config s latest.end_sec (reverse five)),
      ),
  λ h. (cooled-enough config five latest s).1 (
    h.0,
    chain-le-zero
        (chain-le-count config s config.cooling.buckets latest.end_sec 0 (reverse five) h.1),
  ),
)
  where
    chain-le-zero : {n m : ℕ} → 0 + n ≤ m → n ≤ m
    chain-le-zero h = omega arith
