-- ===== src/Ingest/Completeness/Keys.antt =====
-- About the sets of log keys that src/ingest/completeness.ts compares by their sizes.
use lp_monitor.Prelude.{
  suc, ◌≤◌, if◌then◌else◌, ◌≡◌, refl, Bool, true, false, not, ◌&&◌, ◌||◌, Bool-cases, inl, inr,
  String, str_eq, eq_iff, List, [], ◌∷◌, ◌++◌, any, every, length, arith,
}
use mathlib.Core.Path.{subst}
use lp_monitor.Ingest.Completeness.{
  FetchShardManifest, contains, is_distinct, all_keys, distinct_keys,
}

remove : String → List String → List String
remove x [] = []
remove x (y ∷ ys) = let rest = remove x ys in if str_eq y x then ys else y ∷ rest

length-remove :
    (x : String) (ys : List String) → contains x ys ≡ true → suc (length (remove x ys)) ≡ length ys
unfolding contains any remove
length-remove x [] h = ground (arith, h)
length-remove x (y ∷ ys) h = ground (arith, length-remove x ys)

remove-contains :
    (x z : String) (ys : List String)
    → contains z ys ≡ true
    → str_eq x z ≡ false
    → contains z (remove x ys) ≡ true
unfolding contains any remove
remove-contains x z [] h apart = h
remove-contains x z (y ∷ ys) h apart =
    ground (arith, remove-contains x z ys, eq_iff y x, eq_iff y z, eq_iff x z)

contains-here : (x : String) (xs : List String) → contains x (x ∷ xs) ≡ true
unfolding contains any
contains-here x xs = ground (arith, eq_iff x x)

both_true : (a b : Bool) → (a && b) ≡ true → (a ≡ true) × (b ≡ true)
both_true a b e = ground arith

is_off : (a : Bool) → not a ≡ true → a ≡ false
is_off a e = ground arith

others :
    (es cs : List String) (k : String)
    → contains k es ≡ false
    → every (λ d. contains d cs) es ≡ true
    → every (λ d. contains d (remove k cs)) es ≡ true
unfolding every contains any
others [] cs k f e = refl
others (y ∷ es) cs k f e =
    ground (arith, others es cs k, remove-contains k y cs, eq_iff y k, eq_iff k y)

-- The keys of a list without repetitions that stand in another, not longer list are all of its keys.
pub contains-every :
    (ds bs : List String)
    → is_distinct ds ≡ true
    → every (λ d. contains d bs) ds ≡ true
    → length bs ≤ length ds
    → (x : String) → contains x bs ≡ true
    → contains x ds ≡ true
unfolding is_distinct every contains any
contains-every [] [] distinct inside short x h = h
contains-every [] (b ∷ bs) distinct inside short x h = absurd (omega (arith, short))
contains-every (d ∷ ds) bs distinct inside short x h =
    let (fresh, distinct') = both_true (not (contains d ds)) (is_distinct ds) distinct in
    let (here, inside') = both_true (contains d bs) (every (λ k. contains k bs) ds) inside in
    let shorter : length (remove d bs) ≤ length ds =
      omega (arith, short, length-remove d bs here) in
    elim (Bool-cases (str_eq d x)) [
      | inl same ↦ rw same refl
      | inr apart ↦ rw apart (
          contains-every ds (remove d bs) distinct' (others ds bs d (is_off _ fresh) inside')
            shorter x (remove-contains d x bs h apart))
    ]

distinct_keys-fresh :
    (x : String) (seen ks : List String)
    → contains x seen ≡ true
    → contains x (distinct_keys seen ks) ≡ false
unfolding distinct_keys contains any
distinct_keys-fresh x seen [] h = refl
distinct_keys-fresh x seen (k ∷ ks) h = elim (Bool-cases (contains k seen)) [
  | inl old ↦ rw old (distinct_keys-fresh x seen ks h)
  | inr new ↦
      let rest = distinct_keys-fresh x (k ∷ seen) ks (rw h (either (str_eq k x))) in
      elim (Bool-cases (str_eq k x)) [
        | inl same ↦
            let k-is-x : k ≡ x = ground (arith, eq_iff k x) in
            let clash = subst (λ z. contains z seen ≡ false) k-is-x new in cc
        | inr apart ↦ rw (new, apart) rest
      ]
]
  where
    either : (a : Bool) → (a || true) ≡ true
    either a = ground arith

pub distinct_keys-distinct : (seen ks : List String) → is_distinct (distinct_keys seen ks) ≡ true
unfolding distinct_keys is_distinct
distinct_keys-distinct seen [] = refl
distinct_keys-distinct seen (k ∷ ks) = elim (Bool-cases (contains k seen)) [
  | inl old ↦ rw old (distinct_keys-distinct seen ks)
  | inr new ↦
      rw (new, distinct_keys-fresh k (k ∷ seen) ks (contains-here k seen))
        (distinct_keys-distinct (k ∷ seen) ks)
]

pub every-distinct_keys :
    (test : String → Bool) (seen ks : List String)
    → every test ks ≡ true
    → every test (distinct_keys seen ks) ≡ true
unfolding distinct_keys every
every-distinct_keys test seen [] h = refl
every-distinct_keys test seen (k ∷ ks) h =
    ground (arith, every-distinct_keys test seen ks, every-distinct_keys test (k ∷ seen) ks)

pub distinct_keys-contains :
    (x : String) (seen ks : List String)
    → contains x (distinct_keys seen ks) ≡ true
    → contains x ks ≡ true
unfolding distinct_keys contains any
distinct_keys-contains x seen [] h = h
distinct_keys-contains x seen (k ∷ ks) h =
    ground (arith, distinct_keys-contains x seen ks, distinct_keys-contains x (k ∷ seen) ks)

contains-append :
    (x : String) (xs ys : List String) → contains x (xs ++ ys) ≡ (contains x xs || contains x ys)
unfolding contains any
contains-append x [] ys = refl
contains-append x (y ∷ xs) ys = ground (arith, contains-append x xs ys)

pub all_keys-contains :
    (x : String) (shards : List FetchShardManifest)
    → contains x (all_keys shards) ≡ true
    → any (λ (s : FetchShardManifest). contains x s.log_keys) shards ≡ true
unfolding all_keys contains any
all_keys-contains x [] h = h
all_keys-contains x (s ∷ rest) h =
    ground (arith, contains-append x s.log_keys (all_keys rest), all_keys-contains x rest)
