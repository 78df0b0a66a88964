-- ===== src/Registry/Merge.antt =====
-- About `mergeRegistration` and `PoolRegistry.apply` of src/registry/pools.ts.
use lp_monitor.Prelude.{
  ◌⊎◌, if◌then◌else◌, ◌≡◌, refl, sym, ◌∙◌, ap, ◌↔◌, inl, inr, Bool, true, false, not, ◌||◌,
  Bool-cases, Option, none, some, String, str_eq, eq_iff, List, [], ◌∷◌, ℤ, eqb_ℤ, Outcome, ok,
  throw, ◌>>=◌, >>=-eq-ok, ok_inj, arith,
}
use lp_monitor.Prelude.Dict.{lookup, insert, lookup-insert}
use mathlib.Core.Path.{subst}
use lp_monitor.Domain.{PoolRef, v3, v4, LogRef}
use lp_monitor.Registry.{
  PoolRegistration, MergeDecision, PoolRegistry, normalize_pool_registration, id_of, same_ref,
  same_log, same_metadata, equivalent, is_seed, merge_registration, applied, apply, register_all,
}

str_eq_refl : (s : String) → str_eq s s ≡ true
str_eq_refl s = ground (arith, eq_iff s s)

same_ref_refl : (p : PoolRef) → same_ref p p ≡ true
same_ref_refl (v3 a) = str_eq_refl a
same_ref_refl (v4 m p) = rw (str_eq_refl m) (str_eq_refl p)

eqb_ℤ_refl : (a : ℤ) → eqb_ℤ a a ≡ true
eqb_ℤ_refl a = ground arith

same_metadata_refl : (r : PoolRegistration) → same_metadata r r ≡ true
same_metadata_refl r = ground (
  arith,
  str_eq_refl r.token0,
  str_eq_refl r.token1,
  eqb_ℤ_refl r.tick_spacing,
  str_eq_refl r.hooks,
  str_eq_refl r.asset_version,
)

same_log_refl : (l : LogRef) → same_log l l ≡ true
same_log_refl l = ground (arith, str_eq_refl l.block_hash, str_eq_refl l.transaction_hash)

equivalent_refl : (r : PoolRegistration) → equivalent r r ≡ true
unfolding equivalent
equivalent_refl r =
    rw (same_ref_refl r.pool, same_metadata_refl r, same_log_refl r.discovered_at)
      (str_eq_refl r.source)

-- A record merged with itself does not move.
merge_self :
    (r : PoolRegistration)
    → merge_registration (some r) r ≡ ok (record { changed = false; kept = r })
unfolding merge_registration
merge_self r = rw (equivalent_refl r) refl

-- What is kept after a move is the candidate.
changed-kept :
    (o : Option PoolRegistration) (r : PoolRegistration) (d : MergeDecision)
    → merge_registration o r ≡ ok d
    → d.changed ≡ true
    → d.kept ≡ r
unfolding merge_registration
changed-kept none r d e moved = sym (ap (λ x. x.kept) (ok_inj e))
changed-kept (some old) r d e moved =
    by (equivalent old r) (not (same_metadata old r)) (not (is_seed old) || is_seed r) e
  where
    by :
        (same conflict stays : Bool)
        → (if same
            then ok (record { changed = false; kept = old })
            else if conflict
            then throw "Conflicting pool registration"
            else if stays
            then ok (record { changed = false; kept = old })
            else ok (record { changed = true; kept = r }))
          ≡ ok d
        → d.kept ≡ r
    by true conflict stays k =
        let clash : false ≡ true = ap (λ x. x.changed) (ok_inj k) ∙ moved in cc
    by false true stays k = cc
    by false false true k = let clash : false ≡ true = ap (λ x. x.changed) (ok_inj k) ∙ moved in cc
    by false false false k = sym (ap (λ x. x.kept) (ok_inj k))

lookup_own :
    (id : String) (r : PoolRegistration) (registry : PoolRegistry)
    → lookup id (insert id r registry) ≡ some r
lookup_own id r registry = let set = lookup-insert id id r registry in rw (str_eq_refl id) at set

-- A record that was applied is settled: to apply it again succeeds and changes nothing.
pub apply_idempotent :
    (registry after : PoolRegistry) (r : PoolRegistration) (moved : Bool)
    → apply registry r ≡ ok (moved, after)
    → apply after r ≡ ok (false, after)
unfolding apply
apply_idempotent registry after r moved e =
    let n = normalize_pool_registration r in
    let (d, merged, made) =
      >>=-eq-ok (merge_registration (lookup (id_of n) registry) n) (λ d. ok (applied registry n d))
        e in
    elim (Bool-cases d.changed) [
      | inl changed ↦
          let result : ok (true, insert (id_of n) d.kept registry) ≡ ok (moved, after) =
            rw changed at made in
          let stored : insert (id_of n) d.kept registry ≡ after = ap (λ x. x.1) (ok_inj result) in
          let kept = changed-kept (lookup (id_of n) registry) n d merged changed in
          let found : lookup (id_of n) after ≡ some n =
            ap (lookup (id_of n)) (sym stored)
            ∙ lookup_own (id_of n) d.kept registry
            ∙ ap some kept in
          rw (found, merge_self n) refl
      | inr same ↦
          let result : ok (false, registry) ≡ ok (moved, after) = rw same at made in
          let stored : registry ≡ after = ap (λ x. x.1) (ok_inj result) in
          subst
            (λ x.
              (merge_registration (lookup (id_of n) x) n >>= λ d. ok (applied x n d))
              ≡ ok (false, x))
            stored (rw merged (rw same refl))
    ]

-- The branches of the merge with a stored record.
abbrev Branch : PoolRegistration → PoolRegistration → Outcome MergeDecision → Type 0
Branch old r o =
    ((m : String) × (o ≡ throw m) × (same_metadata old r ≡ false))
    ⊎ ((d : MergeDecision) × (o ≡ ok d)
        × (same_metadata old r ≡ true)
        × (same_metadata old d.kept ≡ true))

merge-Branch : (old r : PoolRegistration) → Branch old r (merge_registration (some old) r)
unfolding merge_registration equivalent
merge-Branch old r =
    by (equivalent old r) (same_metadata old r) (not (is_seed old) || is_seed r) refl meta refl
  where
    meta : equivalent old r ≡ true → same_metadata old r ≡ true
    meta e = ground (arith, e)

    by :
        (same alike stays : Bool)
        → equivalent old r ≡ same
        → (same ≡ true → alike ≡ true)
        → same_metadata old r ≡ alike
        → Branch old r (
            if same
            then ok (record { changed = false; kept = old })
            else if not alike
            then throw "Conflicting pool registration"
            else if stays
            then ok (record { changed = false; kept = old })
            else ok (record { changed = true; kept = r }))
    by true alike stays e1 implied e = inr (_, refl, e ∙ implied refl, same_metadata_refl old)
    by false false stays e1 implied e = inl (_, refl, e)
    by false true true e1 implied e = inr (_, refl, e, same_metadata_refl old)
    by false true false e1 implied e = inr (_, refl, e, e)

merge_none :
    (r : PoolRegistration) → merge_registration none r ≡ ok (record { changed = true; kept = r })
unfolding merge_registration
merge_none r = refl

-- A record is refused exactly when another one of its id is stored with other metadata: tokens, fee,
-- tick spacing, hooks or asset version. Any other record is accepted.
pub apply-throws_iff :
    (registry : PoolRegistry) (r : PoolRegistration)
    → ((message : String) × (apply registry r ≡ throw message)) ↔ (
        (old : PoolRegistration) × (lookup (id_of (normalize_pool_registration r)) registry
          ≡ some old)
        × (same_metadata old (normalize_pool_registration r) ≡ false))
unfolding apply
apply-throws_iff registry r = (λ h. refused (lookup (id_of n) registry) refl h, λ c. conflict c)
  where
    n : PoolRegistration
    n = normalize_pool_registration r

    refused :
        (o : Option PoolRegistration)
        → lookup (id_of n) registry ≡ o
        → (message : String) × ((merge_registration o n >>= λ d. ok (applied registry n d))
            ≡ throw message)
        → (old : PoolRegistration) × (lookup (id_of n) registry ≡ some old)
          × (same_metadata old n ≡ false)
    refused none at h =
        let clash : ok (applied registry n (record { changed = true; kept = n })) ≡ throw h.0 =
          rw (merge_none n) at h.1 in
        cc
    refused (some old) at h = elim (merge-Branch old n) [
      | inl b ↦ (old, at, b.2)
      | inr b ↦ let clash : ok (applied registry n b.0) ≡ throw h.0 = rw b.1 at h.1 in cc
    ]

    conflict :
        ((old : PoolRegistration) × (lookup (id_of n) registry ≡ some old)
          × (same_metadata old n ≡ false))
        → (message : String) × (apply registry r ≡ throw message)
    conflict c = elim (merge-Branch c.0 n) [
      | inl b ↦ rw (c.1, b.1) (b.0, refl)
      | inr b ↦ let clash : true ≡ false = sym b.2 ∙ c.2 in cc
    ]

same_metadata_trans :
    (a b d : PoolRegistration)
    → same_metadata a b ≡ true
    → same_metadata b d ≡ true
    → same_metadata a d ≡ true
same_metadata_trans a b d h k = ground (
  arith,
  h,
  k,
  eq_iff a.token0 b.token0,
  eq_iff a.token1 b.token1,
  eq_iff a.hooks b.hooks,
  eq_iff a.asset_version b.asset_version,
  eq_iff b.token0 d.token0,
  eq_iff b.token1 d.token1,
  eq_iff b.hooks d.hooks,
  eq_iff b.asset_version d.asset_version,
  eq_iff a.token0 d.token0,
  eq_iff a.token1 d.token1,
  eq_iff a.hooks d.hooks,
  eq_iff a.asset_version d.asset_version,
)

applied-Kept :
    (id : String) (old r : PoolRegistration) (registry : PoolRegistry) (o : Option PoolRegistration)
    (d : MergeDecision)
    → lookup id registry ≡ some old
    → lookup (id_of r) registry ≡ o
    → merge_registration o r ≡ ok d
    → (new : PoolRegistration) × (lookup id (applied registry r d).1 ≡ some new)
      × (same_metadata old new ≡ true)
applied-Kept id old r registry o d at own e = elim (Bool-cases d.changed) [
  | inr same ↦ rw same (old, at, same_metadata_refl old)
  | inl moved ↦
      rw (moved, lookup-insert (id_of r) id d.kept registry)
        (elim (Bool-cases (str_eq (id_of r) id)) [
          | inr other ↦ rw other (old, at, same_metadata_refl old)
          | inl here ↦
              let equal : id_of r ≡ id = ground (arith, here, eq_iff (id_of r) id) in
              let stored : o ≡ some old = sym own ∙ ap (λ i. lookup i registry) equal ∙ at in
              let merged : merge_registration (some old) r ≡ ok d =
                subst (λ x. merge_registration x r ≡ ok d) stored e in
              rw here (elim (merge-Branch old r) [
                | inl b ↦ let clash : throw b.0 ≡ ok d = sym b.1 ∙ merged in cc
                | inr b ↦
                    let same : b.0 ≡ d = ok_inj (sym b.1 ∙ merged) in
                    (d.kept, refl, subst (λ x. same_metadata old x.kept ≡ true) same b.3)
              ])
        ])
]

apply-Kept :
    (id : String) (old r : PoolRegistration) (registry : PoolRegistry) (done : Bool × PoolRegistry)
    → lookup id registry ≡ some old
    → apply registry r ≡ ok done
    → (new : PoolRegistration) × (lookup id done.1 ≡ some new) × (same_metadata old new ≡ true)
unfolding apply
apply-Kept id old r registry done at e =
    let n = normalize_pool_registration r in
    let (d, merged, made) =
      >>=-eq-ok (merge_registration (lookup (id_of n) registry) n) (λ d. ok (applied registry n d))
        e in
    subst
      (λ x. (new : PoolRegistration) × (lookup id x.1 ≡ some new) × (same_metadata old new ≡ true))
      (ok_inj made) (applied-Kept id old n registry (lookup (id_of n) registry) d at refl merged)

-- A pool that is registered stays so under its id, with the same metadata, whatever is registered
-- after it; a registration with other metadata ends the call with an error instead.
pub register_all-keeps_metadata :
    (rs : List PoolRegistration) (registry after : PoolRegistry) (id : String)
    (old : PoolRegistration)
    → lookup id registry ≡ some old
    → register_all rs registry ≡ ok after
    → (new : PoolRegistration) × (lookup id after ≡ some new) × (same_metadata old new ≡ true)
unfolding register_all
register_all-keeps_metadata [] registry after id old at e =
    subst
      (λ x. (new : PoolRegistration) × (lookup id x ≡ some new) × (same_metadata old new ≡ true))
      (ok_inj e) (old, at, same_metadata_refl old)
register_all-keeps_metadata (r ∷ rs) registry after id old at e =
    let (done, called, later) =
      >>=-eq-ok (apply registry r) (λ (done : Bool × PoolRegistry). register_all rs done.1) e in
    let (next, found, alike) = apply-Kept id old r registry done at called in
    let (new, held, alike') = register_all-keeps_metadata rs done.1 after id next found later in
    (new, held, same_metadata_trans old next new alike alike')
