-- ===== src/Metrics/Price.antt =====
-- src/metrics/price.ts: exact ratios of amounts, and the quotes that swaps leave behind.
pub mod Exact
pub mod Found
use lp_monitor.Prelude.{
  ℕ, suc, ◌+◌, ◌-◌, ◌*◌, ◌/◌, ◌^◌, ◌==◌, ltb, leb, min, if◌then◌else◌, Bool, true, false, not, ◌&&◌,
  ◌||◌, Option, none, some, String, List, [], ◌∷◌, ◌++◌, reverse, ℤ, pos, ◌*ℤ◌, leb_ℤ, ltb_ℤ,
  is_negative, magnitude, Outcome, ok, throw, ◌>>=◌,
}
use lp_monitor.Prelude.Text.{to_lower_case, concat, same_hex}
use lp_monitor.Prelude.Dict.{Dict, lookup, insert}
use lp_monitor.Domain.{LogRef, LogTime, TimeSource}

pub record QuoteObservation : Type 0 where
  pub token : String
  pub quote : String
  pub numerator : ℤ
  pub denominator : ℤ
  pub effective_at : LogRef
  pub time : LogTime
  pub source : String
  pub max_age_sec : ℕ

-- What is read of a `Swap`.
pub record Swap : Type 0 where
  pub ref : LogRef
  pub time : LogTime
  pub raw_amount0 : ℤ
  pub raw_amount1 : ℤ
  pub token_in : String
  pub token_out : String

-- What is read of `SwapValuationMetadata`; decimals and ages are whole numbers.
pub record TokenMetadata : Type 0 where
  pub address : String
  pub decimals : Option ℕ

pub record SwapValuationMetadata : Type 0 where
  pub token0 : TokenMetadata
  pub token1 : TokenMetadata
  pub rwa : String
  pub usdg : String
  pub usdg_decimals : Option ℕ
  pub max_quote_age_sec : Option ℕ

abbrev pub pow10 : ℕ → Outcome ℕ
pow10 decimals =
    if ltb 255 decimals
    then throw "decimals must be an integer from 0 through 255"
    else ok (10 ^ decimals)

-- `validateRatio`, and the test of the numerator behind it.
abbrev pub validate_ratio : ℤ → ℤ → ℤ → Outcome (Unit {0})
validate_ratio raw numerator denominator =
    if is_negative raw
    then throw "raw amount must be non-negative"
    else if leb_ℤ denominator (pos 0)
    then throw "price denominator must be positive"
    else if is_negative numerator
    then throw "price numerator must be non-negative"
    else ok tt

unfoldable pub quote_raw_to_micros : ℤ → ℕ → ℤ → ℤ → Outcome ℕ
quote_raw_to_micros raw decimals numerator denominator =
    validate_ratio raw numerator denominator >>= λ fine. pow10 decimals >>= λ scale.
    ok (magnitude raw * magnitude numerator * 1000000 / (scale * magnitude denominator))

unfoldable pub quote_raw_to_raw : ℤ → ℕ → ℤ → ℤ → ℕ → Outcome ℕ
quote_raw_to_raw raw decimals numerator denominator quote_decimals =
    validate_ratio raw numerator denominator >>= λ fine. pow10 quote_decimals >>= λ quote_scale.
    pow10 decimals >>= λ scale.
    ok (magnitude raw * magnitude numerator * quote_scale / (scale * magnitude denominator))

-- `compareRef(left, right) < 0`.
abbrev pub precedes : LogRef → LogRef → Bool
precedes a b =
    ltb a.block_number b.block_number
    || (a.block_number == b.block_number)
      && (ltb a.transaction_index b.transaction_index
          || (a.transaction_index == b.transaction_index) && ltb a.log_index b.log_index)

abbrev pub exact_or_minute : Option ℕ → Option ℕ → Bool → Option (ℕ × ℕ)
exact_or_minute (some exact) minute is_minute = some (exact, exact)
exact_or_minute none none is_minute = none
exact_or_minute none (some m) is_minute = if is_minute then some (m, m + 59) else none

abbrev pub interval : LogTime → Option (ℕ × ℕ)
interval time = elim time.source [
  | TimeSource.unresolved ↦ none
  | TimeSource.minute_boundary ↦ exact_or_minute time.exact_timestamp_sec time.minute_start_sec true
  | TimeSource.log_verified ↦ exact_or_minute time.exact_timestamp_sec time.minute_start_sec false
]

-- The age, where it is not null and not negative.
abbrev pub age_between : Option (ℕ × ℕ) → Option (ℕ × ℕ) → Option ℕ
age_between none quote = none
age_between (some event) none = none
age_between (some event) (some quote) =
    if ltb event.1 quote.0 then none else some (event.1 - quote.0)

unfoldable pub upper_age_sec : LogTime → LogTime → Option ℕ
upper_age_sec event quote = age_between (interval event) (interval quote)

pub record QuoteIndex : Type 0 where
  pub by_pair : Dict (List QuoteObservation)
  pub all : List QuoteObservation

abbrev pub pair_key : String → String → String
pair_key token quote = concat (to_lower_case token) (concat "|" (to_lower_case quote))

abbrev pub create_quote_index : QuoteIndex
create_quote_index = record { by_pair = []; all = [] }

abbrev pub bucket_or_empty : Option (List QuoteObservation) → List QuoteObservation
bucket_or_empty none = []
bucket_or_empty (some bucket) = bucket

unfoldable pub add_quote : QuoteIndex → QuoteObservation → QuoteIndex
add_quote index q =
    let key = pair_key q.token q.quote in
    record {
      by_pair = insert key (bucket_or_empty (lookup key index.by_pair) ++ q ∷ []) index.by_pair;
      all = index.all ++ q ∷ [];
    }

abbrev pub is_positive : QuoteObservation → Bool
is_positive q = ltb_ℤ (pos 0) q.numerator && ltb_ℤ (pos 0) q.denominator

abbrev pub by_age :
    Option ℕ → ℕ → QuoteObservation → Option QuoteObservation → Option QuoteObservation
by_age none max_age q earlier = earlier
by_age (some age) max_age q earlier =
    if ltb max_age age
    then none
    else if ltb (min max_age q.max_age_sec) age
    then earlier
    else some q

-- The loop from the last quote of the pair to the first.
unfoldable pub find_from : Swap → ℕ → List QuoteObservation → Option QuoteObservation
find_from swap max_age [] = none
find_from swap max_age (q ∷ rest) =
    let earlier = find_from swap max_age rest in
    if not (precedes q.effective_at swap.ref) || not (is_positive q)
    then earlier
    else by_age (upper_age_sec swap.time q.time) max_age q earlier

unfoldable pub find_preceding_quote :
    Swap → String → String → QuoteIndex → ℕ → Option QuoteObservation
find_preceding_quote swap token quote index max_age =
    find_from swap max_age (reverse (bucket_or_empty (lookup (pair_key token quote) index.by_pair)))

abbrev pub side_of : SwapValuationMetadata → String → Option Bool
side_of m token =
    if same_hex m.token0.address token
    then some true
    else if same_hex m.token1.address token
    then some false
    else none

abbrev pub decimals_of : SwapValuationMetadata → Bool → Option ℕ
decimals_of m first = if first then m.token0.decimals else m.token1.decimals

abbrev pub amount_of : Swap → Bool → ℕ
amount_of swap first = magnitude (if first then swap.raw_amount0 else swap.raw_amount1)

abbrev pub or_default_age : Option ℕ → ℕ
or_default_age none = 60
or_default_age (some age) = age

abbrev pub quote_with : Swap → SwapValuationMetadata → ℕ → ℕ → QuoteObservation
quote_with swap m numerator denominator = record {
  token = m.rwa;
  quote = m.usdg;
  numerator = pos numerator;
  denominator = pos denominator;
  effective_at = swap.ref;
  time = swap.time;
  source = "rwa-usdg-swap";
  max_age_sec = or_default_age m.max_quote_age_sec;
}

abbrev pub quote_of :
    Swap → SwapValuationMetadata → ℕ → ℕ → ℕ → ℕ → Outcome (Option QuoteObservation)
quote_of swap m rwa_amount usdg_amount rwa_decimals usdg_decimals =
    if (rwa_amount == 0) || (usdg_amount == 0)
    then throw "RWA and USDG quote amounts must be positive"
    else pow10 rwa_decimals >>= λ rwa_scale. pow10 usdg_decimals >>= λ usdg_scale.
        ok (some (quote_with swap m (usdg_amount * rwa_scale) (rwa_amount * usdg_scale)))

abbrev pub quote_of_decimals :
    Swap → SwapValuationMetadata → Option ℕ → Option ℕ → Outcome (Option QuoteObservation)
quote_of_decimals swap m none usdg_decimals = ok none
quote_of_decimals swap m (some rwa_decimals) none = ok none
quote_of_decimals swap m (some rwa_decimals) (some usdg_decimals) =
    quote_of swap m (amount_of swap (same_hex m.token0.address m.rwa))
      (amount_of swap (same_hex m.token0.address m.usdg)) rwa_decimals usdg_decimals

abbrev pub quote_of_sides :
    Swap → SwapValuationMetadata → Option Bool → Option Bool → Outcome (Option QuoteObservation)
quote_of_sides swap m none usdg = ok none
quote_of_sides swap m (some rwa) none = ok none
quote_of_sides swap m (some rwa) (some usdg) =
    quote_of_decimals swap m (decimals_of m rwa) (decimals_of m usdg)

unfoldable pub quote_from_rwa_usdg_swap :
    Swap → SwapValuationMetadata → Outcome (Option QuoteObservation)
quote_from_rwa_usdg_swap swap m = quote_of_sides swap m (side_of m m.rwa) (side_of m m.usdg)
