-- ===== src/Metrics/Notional.antt =====
-- src/metrics/notional.ts: the value of a swap. The id of the event and the fields that are passed on
-- from the swap are left out.
pub mod Valued
use lp_monitor.Prelude.{
  ℕ, ◌==◌, ltb, leb, if◌then◌else◌, Bool, true, false, not, ◌&&◌, ◌||◌, Option, none, some, String,
  ℤ, pos, ltb_ℤ, eqb_ℤ, Outcome, ok, throw, ◌>>=◌,
}
use lp_monitor.Prelude.Text.{same_hex}
use lp_monitor.Metrics.Price.{
  QuoteObservation, Swap, SwapValuationMetadata, QuoteIndex, side_of, decimals_of, amount_of,
  or_default_age, find_preceding_quote, quote_raw_to_micros, quote_raw_to_raw,
}

pub data ValuationQuality : Type 0 where
  usd_estimate usdg_only unpriced : ValuationQuality

pub record SwapValuation : Type 0 where
  pub native_token : String
  pub native_amount_raw : ℕ
  pub native_decimals : Option ℕ
  pub native_is_token0 : Bool
  pub usdg_notional_raw : Option ℕ
  pub usd_micros : Option ℕ
  pub priced_in_usdg : Bool
  pub quote_evidence : Option QuoteObservation
  pub quality : ValuationQuality

abbrev pub has_token : SwapValuationMetadata → String → Bool
has_token m token = same_hex token m.token0.address || same_hex token m.token1.address

abbrev pub bad_decimals : Option ℕ → Bool
bad_decimals none = false
bad_decimals (some value) = ltb 255 value

abbrev pub same_direction : Swap → Bool
same_direction swap =
    not (eqb_ℤ swap.raw_amount0 (pos 0))
    && not (eqb_ℤ swap.raw_amount1 (pos 0))
    && (if ltb_ℤ (pos 0) swap.raw_amount0
        then ltb_ℤ (pos 0) swap.raw_amount1
        else not (ltb_ℤ (pos 0) swap.raw_amount1))

unfoldable pub validate_pair : Swap → SwapValuationMetadata → Outcome (Unit {0})
validate_pair swap m =
    if not (has_token m swap.token_in)
      || not (has_token m swap.token_out)
      || same_hex swap.token_in swap.token_out
    then throw "Swap token metadata does not match the swap pair"
    else if same_direction swap
    then throw "Swap raw amounts must have opposing directions"
    else if bad_decimals m.token0.decimals
        || bad_decimals m.token1.decimals
        || bad_decimals m.usdg_decimals
    then throw "Token decimals must be an integer from 0 through 255"
    else ok tt

abbrev pub side_for : Option Bool → Outcome Bool
side_for none = throw "Selected valuation token is absent from pool metadata"
side_for (some side) = ok side

abbrev pub valuation :
    String
    → Swap
    → SwapValuationMetadata
    → Bool
    → Option ℕ
    → Option ℕ
    → Bool
    → Option QuoteObservation
    → ValuationQuality
    → SwapValuation
valuation token swap m side raw micros in_usdg evidence quality = record {
  native_token = token;
  native_amount_raw = amount_of swap side;
  native_decimals = decimals_of m side;
  native_is_token0 = side;
  usdg_notional_raw = raw;
  usd_micros = micros;
  priced_in_usdg = in_usdg;
  quote_evidence = evidence;
  quality = quality;
}

abbrev pub value_usdg : Swap → SwapValuationMetadata → Bool → Option ℕ → Outcome SwapValuation
value_usdg swap m side none =
    ok (valuation m.usdg swap m side none none true none ValuationQuality.unpriced)
value_usdg swap m side (some decimals) =
    quote_raw_to_micros (pos (amount_of swap side)) decimals (pos 1) (pos 1) >>= λ micros. ok (
      valuation m.usdg swap m side (some (amount_of swap side)) (some micros) true none
        ValuationQuality.usdg_only)

abbrev pub value_unpriced : Swap → SwapValuationMetadata → Bool → SwapValuation
value_unpriced swap m side =
    valuation m.rwa swap m side none none false none ValuationQuality.unpriced

abbrev pub value_estimate :
    Swap
    → SwapValuationMetadata
    → Bool
    → Option QuoteObservation
    → Option ℕ
    → Option ℕ
    → Outcome SwapValuation
value_estimate swap m side none decimals usdg_decimals = ok (value_unpriced swap m side)
value_estimate swap m side (some q) none usdg_decimals = ok (value_unpriced swap m side)
value_estimate swap m side (some q) (some decimals) none = ok (value_unpriced swap m side)
value_estimate swap m side (some q) (some decimals) (some usdg_decimals) =
    quote_raw_to_raw (pos (amount_of swap side)) decimals q.numerator q.denominator usdg_decimals
    >>= λ raw.
        quote_raw_to_micros (pos (amount_of swap side)) decimals q.numerator q.denominator
        >>= λ micros. ok (
            valuation m.rwa swap m side (some raw) (some micros) false (some q)
              ValuationQuality.usd_estimate)

abbrev pub has_usdg : SwapValuationMetadata → Bool
has_usdg m = same_hex m.token0.address m.usdg || same_hex m.token1.address m.usdg

abbrev pub value_side :
    Swap → SwapValuationMetadata → QuoteIndex → Bool → Bool → Outcome SwapValuation
value_side swap m index true side = value_usdg swap m side (decimals_of m side)
value_side swap m index false side =
    value_estimate swap m side
      (find_preceding_quote swap m.rwa m.usdg index (or_default_age m.max_quote_age_sec))
      (decimals_of m side) m.usdg_decimals

unfoldable pub value_swap : Swap → SwapValuationMetadata → QuoteIndex → Outcome SwapValuation
value_swap swap m index = validate_pair swap m >>= λ fine.
    side_for (side_of m (if has_usdg m then m.usdg else m.rwa)) >>= λ side.
    value_side swap m index (has_usdg m) side
