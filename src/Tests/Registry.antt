-- ===== src/Tests/Registry.antt =====
-- Runs of src/registry/pools.ts: a seed record that yields to one from the chain.
use lp_monitor.Prelude.{ℕ, ◌≡◌, refl, ◌↔◌, true, false, some, String, [], ◌∷◌, pos, ok, throw}
use lp_monitor.Prelude.Dict.{lookup, insert}
use lp_monitor.Prelude.Text.{to_lower_case}
use lp_monitor.Domain.{v3, pool_registration_id}
use lp_monitor.Registry.{
  PoolRegistration, PoolRegistry, normalize_pool_registration, id_of, same_metadata, equivalent,
  merge_registration, apply, register_all,
}
use lp_monitor.Registry.Merge.{apply_idempotent, apply-throws_iff, register_all-keeps_metadata}

abbrev pub registration : String → ℕ → PoolRegistration
registration source fee = record {
  pool = v3 "0xaa";
  token0 = "0x01";
  token1 = "0x02";
  fee_pips = fee;
  tick_spacing = pos 60;
  hooks = "0x00";
  discovered_at = record {
    block_hash = "0xbb";
    block_number = 5;
    transaction_hash = "0xcc";
    transaction_index = 0;
    log_index = 0;
  };
  asset_version = "v1";
  source = source;
}

abbrev seeded : PoolRegistry
seeded = ("4663:v3:0xaa", registration "seed-config" 500) ∷ []

abbrev chained : PoolRegistry
chained = ("4663:v3:0xaa", registration "factory" 500) ∷ []

chain-replaces : apply seeded (registration "factory" 500) ≡ ok (true, chained)
unfolding apply merge_registration equivalent lookup insert pool_registration_id to_lower_case
chain-replaces = refl

apply_idempotent_example : apply chained (registration "factory" 500) ≡ ok (false, chained)
apply_idempotent_example =
    apply_idempotent seeded chained (registration "factory" 500) true chain-replaces

apply-throws_iff_example :
    ((message : String) × (apply seeded (registration "factory" 3000) ≡ throw message)) ↔ (
      (old : PoolRegistration) × (lookup
          (id_of (normalize_pool_registration (registration "factory" 3000)))
          seeded
        ≡ some old)
      × (same_metadata old (normalize_pool_registration (registration "factory" 3000)) ≡ false))
apply-throws_iff_example = apply-throws_iff seeded (registration "factory" 3000)

registered : register_all (registration "factory" 500 ∷ []) seeded ≡ ok chained
unfolding register_all apply merge_registration equivalent lookup insert pool_registration_id
    to_lower_case
registered = refl

seeded-lookup : lookup "4663:v3:0xaa" seeded ≡ some (registration "seed-config" 500)
unfolding lookup
seeded-lookup = refl

register_all-keeps_metadata_example :
    (new : PoolRegistration) × (lookup "4663:v3:0xaa" chained ≡ some new)
    × (same_metadata (registration "seed-config" 500) new ≡ true)
register_all-keeps_metadata_example =
    register_all-keeps_metadata (registration "factory" 500 ∷ []) seeded chained "4663:v3:0xaa"
      (registration "seed-config" 500) seeded-lookup registered
