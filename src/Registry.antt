-- ===== src/Registry.antt =====
-- src/registry/pools.ts: the registrations of pools by their id. Two records are taken as equal when
-- their fields are; how `localeCompare` orders two ids is a parameter.
pub mod Merge
use lp_monitor.Prelude.{
  ℕ, ◌==◌, ltb, if◌then◌else◌, Bool, true, false, not, ◌&&◌, ◌||◌, Option, none, some, String,
  str_eq, List, [], ◌∷◌, map, select, sort, ℤ, eqb_ℤ, Outcome, ok, throw, ◌>>=◌,
}
use lp_monitor.Prelude.Dict.{Dict, lookup, insert}
use lp_monitor.Prelude.Text.{to_lower_case, same_hex}
use lp_monitor.Domain.{PoolRef, v3, v4, LogRef, BlockAnchor, pool_registration_id}

-- `PersistedPoolRegistration` of src/storage/manifest.ts.
pub record PoolRegistration : Type 0 where
  pub pool : PoolRef
  pub token0 : String
  pub token1 : String
  pub fee_pips : ℕ
  pub tick_spacing : ℤ
  pub hooks : String
  pub discovered_at : LogRef
  pub asset_version : String
  pub source : String

abbrev pub normalize_ref : PoolRef → PoolRef
normalize_ref (v3 address) = v3 (to_lower_case address)
normalize_ref (v4 manager pool_id) = v4 (to_lower_case manager) (to_lower_case pool_id)

abbrev pub normalize_log_ref : LogRef → LogRef
normalize_log_ref r = record r {
  block_hash = to_lower_case r.block_hash;
  transaction_hash = to_lower_case r.transaction_hash;
}

abbrev pub normalize_pool_registration : PoolRegistration → PoolRegistration
normalize_pool_registration r = record r {
  pool = normalize_ref r.pool;
  token0 = to_lower_case r.token0;
  token1 = to_lower_case r.token1;
  hooks = to_lower_case r.hooks;
  discovered_at = normalize_log_ref r.discovered_at;
}

abbrev pub id_of : PoolRegistration → String
id_of r = pool_registration_id r.pool

abbrev pub same_ref : PoolRef → PoolRef → Bool
same_ref (v3 a) (v3 b) = str_eq a b
same_ref (v4 manager pool_id) (v4 manager' pool_id') =
    str_eq manager manager' && str_eq pool_id pool_id'
same_ref _ _ = false

abbrev pub same_log : LogRef → LogRef → Bool
same_log a b =
    str_eq a.block_hash b.block_hash
    && (a.block_number == b.block_number)
    && str_eq a.transaction_hash b.transaction_hash
    && (a.transaction_index == b.transaction_index)
    && (a.log_index == b.log_index)

abbrev pub same_metadata : PoolRegistration → PoolRegistration → Bool
same_metadata a b =
    str_eq a.token0 b.token0
    && str_eq a.token1 b.token1
    && (a.fee_pips == b.fee_pips)
    && eqb_ℤ a.tick_spacing b.tick_spacing
    && str_eq a.hooks b.hooks
    && str_eq a.asset_version b.asset_version

unfoldable pub equivalent : PoolRegistration → PoolRegistration → Bool
equivalent a b =
    same_ref a.pool b.pool
    && same_metadata a b
    && same_log a.discovered_at b.discovered_at
    && str_eq a.source b.source

pub record MergeDecision : Type 0 where
  pub changed : Bool
  pub kept : PoolRegistration

abbrev pub is_seed : PoolRegistration → Bool
is_seed r = str_eq r.source "seed-config"

-- `mergeRegistration`: a seed record yields to a chain record, any other record stands.
unfoldable pub merge_registration :
    Option PoolRegistration → PoolRegistration → Outcome MergeDecision
merge_registration none candidate = ok (record { changed = true; kept = candidate })
merge_registration (some existing) candidate =
    if equivalent existing candidate
    then ok (record { changed = false; kept = existing })
    else if not (same_metadata existing candidate)
    then throw "Conflicting pool registration"
    else if not (is_seed existing) || is_seed candidate
    then ok (record { changed = false; kept = existing })
    else ok (record { changed = true; kept = candidate })

abbrev pub PoolRegistry : Type 0
PoolRegistry = Dict PoolRegistration

abbrev pub applied : PoolRegistry → PoolRegistration → MergeDecision → Bool × PoolRegistry
applied registry r d =
    if not d.changed then (false, registry) else (true, insert (id_of r) d.kept registry)

unfoldable pub apply : PoolRegistry → PoolRegistration → Outcome (Bool × PoolRegistry)
apply registry candidate =
    let r = normalize_pool_registration candidate in
    merge_registration (lookup (id_of r) registry) r >>= λ d. ok (applied registry r d)

unfoldable pub register_all : List PoolRegistration → PoolRegistry → Outcome PoolRegistry
register_all [] registry = ok registry
register_all (r ∷ rest) registry =
    apply registry r >>= λ (done : Bool × PoolRegistry). register_all rest done.1

unfoldable pub register_accepted :
    Bool → List PoolRegistration → PoolRegistry → Outcome PoolRegistry
register_accepted complete registrations registry =
    if not complete
    then throw "Cannot register pools from an incomplete range"
    else register_all registrations registry

-- What a reorganisation to the anchor takes away.
abbrev pub is_withdrawn : BlockAnchor → PoolRegistration → Bool
is_withdrawn anchor r =
    ltb anchor.number r.discovered_at.block_number
    || ((r.discovered_at.block_number == anchor.number)
        && not (same_hex r.discovered_at.block_hash anchor.hash))

unfoldable pub invalidate_after : BlockAnchor → PoolRegistry → PoolRegistry
invalidate_after anchor [] = []
invalidate_after anchor ((id, r) ∷ rest) =
    let others = invalidate_after anchor rest in
    if is_withdrawn anchor r then others else (id, r) ∷ others

unfoldable pub remove : String → PoolRegistry → PoolRegistry
remove id [] = []
remove id ((name, r) ∷ rest) =
    let others = remove id rest in if str_eq name id then rest else (name, r) ∷ others

abbrev pub values : PoolRegistry → List PoolRegistration
values [] = []
values ((id, r) ∷ rest) = r ∷ values rest

abbrev pub is_version : Option String → PoolRegistration → Bool
is_version none r = true
is_version (some version) r = str_eq r.asset_version version

module _ (locale_before : String → String → Bool) where
  unfoldable pub sort_by_id : List PoolRegistration → List PoolRegistration
  sort_by_id rs = sort (λ a b. locale_before (id_of a) (id_of b)) rs

  abbrev pub snapshot : PoolRegistry → Option String → List PoolRegistration
  snapshot registry version = sort_by_id (select (is_version version) (values registry))

  unfoldable pub by_id : List PoolRegistration → PoolRegistry → PoolRegistry
  by_id [] merged = merged
  by_id (r ∷ rest) merged = by_id rest (insert (id_of r) r merged)

  -- The staged records of the version, merged into the snapshot under the rule of `apply`.
  unfoldable pub merge_staged :
      Option String → List PoolRegistration → PoolRegistry → Outcome PoolRegistry
  merge_staged version [] merged = ok merged
  merge_staged version (r ∷ rest) merged =
      if not (is_version version (normalize_pool_registration r))
      then merge_staged version rest merged
      else apply merged r >>= λ (done : Bool × PoolRegistry). merge_staged version rest done.1

  unfoldable pub preview :
      PoolRegistry → List PoolRegistration → Option String → Outcome (List PoolRegistration)
  preview registry staged version =
      merge_staged version staged (by_id (snapshot registry version) []) >>= λ merged.
      ok (sort_by_id (values merged))
