-- ===== src/Metrics/Price/Exact.antt =====
-- About the ratios of src/metrics/price.ts: a quote and the amounts that it was taken from.
use lp_monitor.Prelude.{
  ℕ, zero, suc, ◌+◌, ◌*◌, ◌/◌, ◌^◌, ◌==◌, ◌<◌, ltb, ◌≡◌, sym, ap, inl, inr, Bool, false, ◌||◌,
  Bool-cases, some, pos, ok, throw, >>=-eq-ok, ok_inj, arith,
}
use Prim.Native.Nat.pow
use native.Mathlib.Nat.{div-eq_of_eq-mul_left, mul-div-mul_left}
use mathlib.Core.Path.{subst}
use lp_monitor.Prelude.Text.{same_hex}
use lp_monitor.Metrics.Price.{
  QuoteObservation, Swap, SwapValuationMetadata, pow10, quote_raw_to_raw, quote_raw_to_micros,
  validate_ratio, side_of, decimals_of, amount_of, quote_of, quote_of_sides, quote_of_decimals,
  quote_with, quote_from_rwa_usdg_swap,
}

power_positive : (d : ℕ) → 0 < 10 ^ d
power_positive zero = omega arith
power_positive (suc d) = omega (arith, power_positive d, pow.suc 10 d)

pow10-bounded : (d p : ℕ) → pow10 d ≡ ok p → (p ≡ 10 ^ d) × (ltb 255 d ≡ false)
pow10-bounded d p e = elim (Bool-cases (ltb 255 d)) [
  | inl big ↦
      let clash : throw "decimals must be an integer from 0 through 255" ≡ ok p = rw big at e in cc
  | inr small ↦ (sym (ok_inj (rw small at e)), small)
]

product_positive : (a b : ℕ) → 0 < a → 0 < b → 0 < a * b
product_positive a b ha hb = grind arith

swapped : (r u a b : ℕ) → r * (u * a) * b ≡ u * (a * (r * b))
swapped r u a b = grind arith

scaled : (r u a b m : ℕ) → r * (u * a) * m ≡ (a * r) * (u * m)
scaled r u a b m = grind arith

regrouped : (a r b : ℕ) → a * (r * b) ≡ (a * r) * b
regrouped a r b = grind arith

cross : (r u a b : ℕ) → 0 < r → 0 < a → 0 < b → r * (u * a) * b / (a * (r * b)) ≡ u
cross r u a b hr ha hb =
    div-eq_of_eq-mul_left (product_positive a (r * b) ha (product_positive r b hr hb))
      (swapped r u a b)

cross_micros : (r u a b m : ℕ) → 0 < r → 0 < a → r * (u * a) * m / (a * (r * b)) ≡ u * m / b
cross_micros r u a b m hr ha =
    rw (scaled r u a b m, regrouped a r b) (mul-div-mul_left (u * m) b (product_positive a r ha hr))

-- What the quote of a swap gives for an amount of the swap.
abbrev Exact : ℕ → ℕ → ℕ → ℕ → QuoteObservation → Type 0
Exact rwa_amount usdg_amount rwa_decimals usdg_decimals q =
    (quote_raw_to_raw (pos rwa_amount) rwa_decimals q.numerator q.denominator usdg_decimals
      ≡ ok usdg_amount)
    × (quote_raw_to_micros (pos rwa_amount) rwa_decimals q.numerator q.denominator
        ≡ ok (usdg_amount * 1000000 / 10 ^ usdg_decimals))

plus_zero : (n : ℕ) → n + 0 ≡ n
plus_zero n = omega arith

valid : (raw n d : ℕ) → 0 < d → validate_ratio (pos raw) (pos n) (pos d) ≡ ok tt
valid raw n d h = ground arith

priced :
    (swap : Swap) (m : SwapValuationMetadata) (r u dr du a b : ℕ)
    → 0 < r
    → (pow10 dr ≡ ok a) × (a ≡ 10 ^ dr)
    → (pow10 du ≡ ok b) × (b ≡ 10 ^ du)
    → Exact r u dr du (quote_with swap m (u * a) (r * b))
unfolding quote_raw_to_raw quote_raw_to_micros
priced swap m r u dr du a b hr (pa, ea) (pb, eb) =
    let ha : 0 < a = omega (arith, ea, power_positive dr) in
    let hb : 0 < b = omega (arith, eb, power_positive du) in
    let fine = valid r (u * a) (r * b) (product_positive r b hr hb) in
    (
      rw (fine, pb, pa) (ap ok (cross_of_zeros r u a b hr ha hb)),
      rw (fine, pa, ← eb) (ap ok (micros_of_zeros r u a b hr ha)),
    )
  where
    cross_of_zeros :
        (r u a b : ℕ) → 0 < r → 0 < a → 0 < b → (r + 0) * (u * a + 0) * b / (a * (r * b + 0)) ≡ u
    cross_of_zeros r u a b hr ha hb =
        rw (plus_zero r, plus_zero (u * a), plus_zero (r * b)) (cross r u a b hr ha hb)

    micros_of_zeros :
        (r u a b : ℕ)
        → 0 < r
        → 0 < a
        → (r + 0) * (u * a + 0) * 1000000 / (a * (r * b + 0)) ≡ u * 1000000 / b
    micros_of_zeros r u a b hr ha =
        rw (plus_zero r, plus_zero (u * a), plus_zero (r * b)) (cross_micros r u a b 1000000 hr ha)

quote_of-Exact :
    (swap : Swap) (m : SwapValuationMetadata) (r u dr du : ℕ) (q : QuoteObservation)
    → quote_of swap m r u dr du ≡ ok (some q)
    → Exact r u dr du q
quote_of-Exact swap m r u dr du q e = elim (Bool-cases ((r == 0) || (u == 0))) [
  | inl empty ↦
      let clash : throw "RWA and USDG quote amounts must be positive" ≡ ok (some q) =
        rw empty at e in
      cc
  | inr full ↦
      let (a, pa, later) = >>=-eq-ok (pow10 dr) _ (rw full at e) in
      let (b, pb, made) =
        >>=-eq-ok (pow10 du) (λ b. ok (some (quote_with swap m (u * a) (r * b)))) later in
      let same : some (quote_with swap m (u * a) (r * b)) ≡ some q = ok_inj made in
      let is : quote_with swap m (u * a) (r * b) ≡ q = cc same in
      subst (Exact r u dr du) is (
        priced swap m r u dr du a b (ground (arith, full)) (pa, (pow10-bounded dr a pa).0)
          (pb, (pow10-bounded du b pb).0))
]

-- The quote that a swap leaves behind prices the swap's own amount of the asset at exactly the amount
-- of the other token that it was swapped for, without a rounding loss, and in millionths of a dollar
-- at that amount with the decimals cut off.
pub own_quote_is_exact :
    (swap : Swap) (m : SwapValuationMetadata) (rwa usdg : Bool) (dr du : ℕ) (q : QuoteObservation)
    → side_of m m.rwa ≡ some rwa
    → side_of m m.usdg ≡ some usdg
    → decimals_of m rwa ≡ some dr
    → decimals_of m usdg ≡ some du
    → quote_from_rwa_usdg_swap swap m ≡ ok (some q)
    → (quote_raw_to_raw
          (pos (amount_of swap (same_hex m.token0.address m.rwa)))
          dr
          q.numerator
          q.denominator
          du
        ≡ ok (amount_of swap (same_hex m.token0.address m.usdg)))
      × (quote_raw_to_micros
            (pos (amount_of swap (same_hex m.token0.address m.rwa)))
            dr
            q.numerator
            q.denominator
          ≡ ok (amount_of swap (same_hex m.token0.address m.usdg) * 1000000 / 10 ^ du))
unfolding quote_from_rwa_usdg_swap
own_quote_is_exact swap m rwa usdg dr du q on_rwa on_usdg has_dr has_du e =
    let sides : quote_of_sides swap m (some rwa) (some usdg) ≡ ok (some q) =
      rw (on_rwa, on_usdg) at e in
    let made : quote_of_decimals swap m (some dr) (some du) ≡ ok (some q) =
      rw (has_dr, has_du) at sides in
    quote_of-Exact swap m (amount_of swap (same_hex m.token0.address m.rwa))
      (amount_of swap (same_hex m.token0.address m.usdg)) dr du q made
