-- ===== src/Metrics/Notional/Valued.antt =====
-- About `valueSwap` of src/metrics/notional.ts.
use lp_monitor.Prelude.{String, if◌then◌else◌, ◌≡◌, false, none, some, Outcome, ok}
use lp_monitor.Metrics.Price.{
  QuoteObservation, Swap, SwapValuationMetadata, pair_key, or_default_age,
}
use lp_monitor.Metrics.Price.Found.{IsUsable}
use lp_monitor.Metrics.Notional.{ValuationQuality, SwapValuation, bad_decimals, has_usdg}

-- The decimals are in range after the check.
abbrev Decimals : SwapValuationMetadata → Type 0
Decimals m =
    (bad_decimals m.token0.decimals ≡ false)
    × (bad_decimals m.token1.decimals ≡ false)
    × (bad_decimals m.usdg_decimals ≡ false)

-- What the evidence of a value is: none, or for an estimate a quote of the pair that may be used.
abbrev pub Backed : Swap → SwapValuationMetadata → SwapValuation → Type 0
Backed swap m v =
    (v.quality ≡ ValuationQuality.usd_estimate
      → (q : QuoteObservation) × (v.quote_evidence ≡ some q)
        × (pair_key q.token q.quote ≡ pair_key m.rwa m.usdg)
        × IsUsable swap (or_default_age m.max_quote_age_sec) q)
    × (v.quality ≡ ValuationQuality.unpriced → v.usd_micros ≡ none)

abbrev Valued : Swap → SwapValuationMetadata → Outcome SwapValuation → Type 0
Valued swap m o = (v : SwapValuation) × (o ≡ ok v) × Backed swap m v

abbrev valued_token : SwapValuationMetadata → String
valued_token m = if has_usdg m then m.usdg else m.rwa
