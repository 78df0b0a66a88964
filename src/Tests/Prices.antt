-- ===== src/Tests/Prices.antt =====
-- Runs of src/metrics/price.ts, src/metrics/notional.ts and src/domain/events.ts: a quote from one swap that prices another.
use lp_monitor.Prelude.{
  ℕ, ◌*◌, ◌/◌, ◌^◌, ◌≡◌, refl, true, false, none, some, String, ℤ, pos, negsuc, ok, ◌<◌, ◌⊎◌, ◌&&◌,
  throw,
}
use lp_monitor.Prelude.Text.{to_lower_case, same_hex}
use lp_monitor.Domain.{TimeSource}
use lp_monitor.Domain.Deltas.{
  version_3, version_4, SwapSides, normalize_core_deltas, deltas_of, is_positive, is_below_zero,
  core_deltas_round,
}
use lp_monitor.Metrics.Price.{
  QuoteObservation, Swap, SwapValuationMetadata, quote_raw_to_raw, quote_raw_to_micros,
  quote_from_rwa_usdg_swap, quote_with, side_of, amount_of,
}
use lp_monitor.Metrics.Price.Exact.{own_quote_is_exact}

abbrev swap_in_block : ℕ → String → String → ℤ → ℤ → Swap
swap_in_block block token_in token_out amount0 amount1 = record {
  ref = record {
    block_hash = "0xaa";
    block_number = block;
    transaction_hash = "0xcc";
    transaction_index = 0;
    log_index = 0;
  };
  time = record {
    minute_start_sec = some 60;
    exact_timestamp_sec = none;
    source = TimeSource.minute_boundary;
  };
  raw_amount0 = amount0;
  raw_amount1 = amount1;
  token_in = token_in;
  token_out = token_out;
}

-- The asset "0x01" against the dollar token "0x02", and against "0x03".
abbrev metadata : String → SwapValuationMetadata
metadata other = record {
  token0 = record { address = "0x01"; decimals = some 3 };
  token1 = record { address = other; decimals = some 2 };
  rwa = "0x01";
  usdg = "0x02";
  usdg_decimals = some 2;
  max_quote_age_sec = none;
}

abbrev quoting : Swap
quoting = swap_in_block 5 "0x01" "0x02" (pos 3000) (negsuc 899)

abbrev quote : QuoteObservation
quote = quote_with quoting (metadata "0x02") 900000 300000

quoting-quote : quote_from_rwa_usdg_swap quoting (metadata "0x02") ≡ ok (some quote)
unfolding quote_from_rwa_usdg_swap to_lower_case
quoting-quote = refl

on_rwa : side_of (metadata "0x02") "0x01" ≡ some true
unfolding to_lower_case
on_rwa = refl

on_usdg : side_of (metadata "0x02") "0x02" ≡ some false
unfolding to_lower_case
on_usdg = refl

own_quote_is_exact_example :
    (quote_raw_to_raw
        (pos (amount_of quoting (same_hex "0x01" "0x01")))
        3
        (pos 900000)
        (pos 300000)
        2
      ≡ ok (amount_of quoting (same_hex "0x01" "0x02")))
    × (quote_raw_to_micros
          (pos (amount_of quoting (same_hex "0x01" "0x01")))
          3
          (pos 900000)
          (pos 300000)
        ≡ ok (amount_of quoting (same_hex "0x01" "0x02") * 1000000 / 10 ^ 2))
own_quote_is_exact_example =
    own_quote_is_exact quoting (metadata "0x02") true false 3 2 quote on_rwa on_usdg refl refl
      quoting-quote

abbrev priced : Swap
priced = swap_in_block 6 "0x03" "0x01" (negsuc 999) (pos 7)

core_deltas_round_example :
    (normalize_core_deltas version_4 (pos 5) (negsuc 8)
      ≡ normalize_core_deltas version_3 (negsuc 4) (pos 9))
    × (((s : SwapSides) × (normalize_core_deltas version_4 (negsuc 4) (pos 9) ≡ ok s)
          × (deltas_of s ≡ (pos 5, negsuc 8))
          × (0 < s.amount_in)
          × (0 < s.amount_out))
        ⊎ ((m : String) × (normalize_core_deltas version_4 (negsuc 4) (pos 9) ≡ throw m)
            × ((is_positive (pos 5) && is_below_zero (negsuc 8)) ≡ false)
            × ((is_positive (negsuc 8) && is_below_zero (pos 5)) ≡ false)))
core_deltas_round_example = core_deltas_round version_4 (negsuc 4) (pos 9)
