-- ===== src/Domain/Deltas.antt =====
-- src/domain/events.ts: `normalizeCoreDeltas`, the direction of a swap from the deltas of a pool.
use lp_monitor.Prelude.{
  ℕ, zero, suc, ◌<◌, if◌then◌else◌, ◌≡◌, refl, ◌⊎◌, inl, inr, Bool, true, false, ◌&&◌, ℤ, pos,
  negsuc, ltb_ℤ, magnitude, String, Outcome, ok, throw, arith,
}

-- `version === 'v3'`.
pub data Version : Type 0 where
  version_3 version_4 : Version

pub record SwapSides : Type 0 where
  pub input_is_first : Bool
  pub amount_in : ℕ
  pub amount_out : ℕ

abbrev pub negate : ℤ → ℤ
negate (pos zero) = pos 0
negate (pos (suc n)) = negsuc n
negate (negsuc n) = pos (suc n)

-- The deltas as the pool sees them.
abbrev pub pool_delta : Version → ℤ → ℤ
pool_delta version_3 a = a
pool_delta version_4 a = negate a

abbrev pub is_positive : ℤ → Bool
is_positive a = ltb_ℤ (pos 0) a

abbrev pub is_below_zero : ℤ → Bool
is_below_zero a = ltb_ℤ a (pos 0)

abbrev pub no_direction : String
no_direction = "Cannot normalize swap with zero or same-sign deltas"

abbrev pub sides_of : ℤ → ℤ → Outcome SwapSides
sides_of delta0 delta1 =
    if is_positive delta0 && is_below_zero delta1
    then ok (record {
      input_is_first = true;
      amount_in = magnitude delta0;
      amount_out = magnitude delta1;
    })
    else if is_positive delta1 && is_below_zero delta0
    then ok (record {
      input_is_first = false;
      amount_in = magnitude delta1;
      amount_out = magnitude delta0;
    })
    else throw no_direction

unfoldable pub normalize_core_deltas : Version → ℤ → ℤ → Outcome SwapSides
normalize_core_deltas version a b = sides_of (pool_delta version a) (pool_delta version b)

-- The delta that an amount into the pool, or out of it, leaves.
abbrev pub delta_in : ℕ → ℤ
delta_in n = pos n

abbrev pub delta_out : ℕ → ℤ
delta_out n = negate (pos n)

-- The pool's deltas, from what was read.
abbrev pub deltas_of : SwapSides → ℤ × ℤ
deltas_of s =
    if s.input_is_first
    then (delta_in s.amount_in, delta_out s.amount_out)
    else (delta_out s.amount_out, delta_in s.amount_in)

abbrev Reads : ℤ → ℤ → Outcome SwapSides → Type 0
Reads a b o =
    ((s : SwapSides) × (o ≡ ok s) × (deltas_of s ≡ (a, b)) × (0 < s.amount_in) × (0 < s.amount_out))
    ⊎ ((m : String) × (o ≡ throw m)
        × ((is_positive a && is_below_zero b) ≡ false)
        × ((is_positive b && is_below_zero a) ≡ false))

sides_of-Reads : (a b : ℤ) → Reads a b (sides_of a b)
sides_of-Reads (pos zero) (pos zero) = inr (no_direction, ground arith, ground arith, ground arith)
sides_of-Reads (pos zero) (pos (suc n)) =
    inr (no_direction, ground arith, ground arith, ground arith)
sides_of-Reads (pos (suc m)) (pos zero) =
    inr (no_direction, ground arith, ground arith, ground arith)
sides_of-Reads (pos (suc m)) (pos (suc n)) =
    inr (no_direction, ground arith, ground arith, ground arith)
sides_of-Reads (pos zero) (negsuc n) = inr (no_direction, ground arith, ground arith, ground arith)
sides_of-Reads (pos (suc m)) (negsuc n) = inl (
  record { input_is_first = true; amount_in = suc m; amount_out = suc n },
  ground arith,
  refl,
  omega arith,
  omega arith,
)
sides_of-Reads (negsuc m) (pos zero) = inr (no_direction, ground arith, ground arith, ground arith)
sides_of-Reads (negsuc m) (pos (suc n)) = inl (
  record { input_is_first = false; amount_in = suc n; amount_out = suc m },
  ground arith,
  refl,
  omega arith,
  omega arith,
)
sides_of-Reads (negsuc m) (negsuc n) = inr (no_direction, ground arith, ground arith, ground arith)

negate-negate : (a : ℤ) → negate (negate a) ≡ a
negate-negate (pos zero) = refl
negate-negate (pos (suc n)) = refl
negate-negate (negsuc n) = refl

-- The two versions read a swap alike, as the second writes the deltas with the other sign: either the
-- amounts, both above 0, give back the deltas of the pool, or no token went in while the other one
-- went out, and the call throws.
pub core_deltas_round :
    (version : Version) (a b : ℤ)
    → (normalize_core_deltas version_4 (negate a) (negate b) ≡ normalize_core_deltas version_3 a b)
      × (((s : SwapSides) × (normalize_core_deltas version a b ≡ ok s)
            × (deltas_of s ≡ (pool_delta version a, pool_delta version b))
            × (0 < s.amount_in)
            × (0 < s.amount_out))
          ⊎ ((m : String) × (normalize_core_deltas version a b ≡ throw m)
              × ((is_positive (pool_delta version a) && is_below_zero (pool_delta version b))
                  ≡ false)
              × ((is_positive (pool_delta version b) && is_below_zero (pool_delta version a))
                  ≡ false)))
unfolding normalize_core_deltas
core_deltas_round version a b = (
  rw (negate-negate a, negate-negate b) refl,
  sides_of-Reads (pool_delta version a) (pool_delta version b),
)
