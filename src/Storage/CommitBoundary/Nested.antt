-- ===== src/Storage/CommitBoundary/Nested.antt =====
-- About nested bodies under the boundary of src/storage/commit-boundary.ts.
use lp_monitor.Prelude.{
  ℕ, suc, ◌+◌, ◌-◌, ltb, if◌then◌else◌, ◌≡◌, refl, ◌∙◌, ap, Bool, true, false, ◌||◌, none, some,
  String, List, [], ◌∷◌, ◌++◌, map, arith,
}
use lp_monitor.Storage.CommitBoundary.{
  Settled, BoundaryState, Connection, begin_commit_boundary, after_commit, on_rollback, add_cache,
  register_rollback_invalidation, end_commit_boundary, with_commit_boundary, settled_log,
}

-- A transaction body: the effects and caches that it registers, and the bodies that it runs under a
-- boundary of their own, each of which may throw and be caught here.
pub data Body : Type 0 where
  done : Body
  effect undo cache : String → Body → Body
  nested : Body → (throws : Bool) → Body → Body

unfoldable pub run_body : Body → Connection → Connection
run_body Body.done c = c
run_body (Body.effect e rest) c = run_body rest (after_commit e c)
run_body (Body.undo e rest) c = run_body rest (on_rollback e c)
run_body (Body.cache name rest) c = run_body rest (register_rollback_invalidation name c)
run_body (Body.nested inner throws rest) c =
    run_body rest (with_commit_boundary (λ d. (run_body inner d, throws)) c).0

-- The reference: what a body registers, whatever level it stands on.
unfoldable pub collect : Body → BoundaryState → BoundaryState
collect Body.done s = s
collect (Body.effect e rest) s = collect rest (record s { after_commit = s.after_commit ++ e ∷ [] })
collect (Body.undo e rest) s = collect rest (record s { on_rollback = s.on_rollback ++ e ∷ [] })
collect (Body.cache name rest) s = collect rest (record s { caches = add_cache name s.caches })
collect (Body.nested inner throws rest) s =
    let inside = collect inner s in
    collect rest (record inside { failed = inside.failed || throws })

abbrev at_depth : ℕ → BoundaryState → BoundaryState
at_depth n s = record s { depth = n }

collect-depth :
    (b : Body) (n : ℕ) (s : BoundaryState) → collect b (at_depth n s) ≡ at_depth n (collect b s)
unfolding collect
collect-depth Body.done n s = refl
collect-depth (Body.effect e rest) n s = collect-depth rest n _
collect-depth (Body.undo e rest) n s = collect-depth rest n _
collect-depth (Body.cache name rest) n s = collect-depth rest n _
collect-depth (Body.nested inner throws rest) n s =
    ap (λ x. collect rest (record x { failed = x.failed || throws })) (collect-depth inner n s)
    ∙ collect-depth rest n _

abbrev inside : Connection → ℕ → BoundaryState → Connection
inside c n s = record c { boundary = some (at_depth (suc n) s) }

inner_depth : (n : ℕ) → suc (suc n) - 1 ≡ suc n
inner_depth n = omega arith

end-inner :
    (throws : Bool) (c : Connection) (n : ℕ) (s : BoundaryState)
    → end_commit_boundary (if throws then true else false) (inside c (suc n) s)
      ≡ inside c n (record s { failed = s.failed || throws })
unfolding end_commit_boundary
end-inner throws c n s = rw (inner_depth n, positive n, sign throws) refl
  where
    positive : (k : ℕ) → ltb 0 (suc k) ≡ true
    positive k = ground arith

    sign : (b : Bool) → (if b then true else false) ≡ b
    sign true = refl
    sign false = refl

begin-inner :
    (c : Connection) (n : ℕ) (s : BoundaryState)
    → record c { boundary = some (at_depth (suc n + 1) s) } ≡ inside c (suc n) s
begin-inner c n s = rw (next n) refl
  where
    next : (k : ℕ) → suc k + 1 ≡ suc (suc k)
    next k = omega arith

-- Below the outermost level a body only registers: the log stays as it is.
run_body-collect :
    (b : Body) (c : Connection) (n : ℕ) (s : BoundaryState)
    → run_body b (inside c n s) ≡ inside c n (collect b s)
unfolding run_body collect after_commit on_rollback register_rollback_invalidation
    with_commit_boundary begin_commit_boundary end_commit_boundary
run_body-collect Body.done c n s = refl
run_body-collect (Body.effect e rest) c n s = run_body-collect rest c n _
run_body-collect (Body.undo e rest) c n s = run_body-collect rest c n _
run_body-collect (Body.cache name rest) c n s = run_body-collect rest c n _
run_body-collect (Body.nested inner throws rest) c n s =
    ap
      (λ x. run_body rest (end_commit_boundary (if throws then true else false) (run_body inner x)))
      (begin-inner c n s)
    ∙ ap (λ x. run_body rest (end_commit_boundary (if throws then true else false) x))
        (run_body-collect inner c (suc n) s)
    ∙ ap (run_body rest) (end-inner throws c n (collect inner s))
    ∙ run_body-collect rest c n
        (record (collect inner s) { failed = (collect inner s).failed || throws })

abbrev pub nothing_registered : BoundaryState
nothing_registered = record {
  depth = 1;
  failed = false;
  caches = [];
  after_commit = [];
  on_rollback = [];
}

end-outermost :
    (rollback : Bool) (c : Connection) (s : BoundaryState)
    → end_commit_boundary rollback (inside c 0 s) ≡ record c {
      boundary = none;
      log = c.log ++ settled_log (record s { failed = s.failed || rollback });
    }
unfolding end_commit_boundary
end-outermost rollback c s = refl

-- What the body registers, read off its text: the effects and the undo effects of all levels in their
-- order, each cache once, and whether one of its nested bodies throws.
abbrev pub effects_in : Body → List String
effects_in Body.done = []
effects_in (Body.effect e rest) = e ∷ effects_in rest
effects_in (Body.undo e rest) = effects_in rest
effects_in (Body.cache name rest) = effects_in rest
effects_in (Body.nested inner throws rest) = effects_in inner ++ effects_in rest

abbrev pub undos_in : Body → List String
undos_in Body.done = []
undos_in (Body.effect e rest) = undos_in rest
undos_in (Body.undo e rest) = e ∷ undos_in rest
undos_in (Body.cache name rest) = undos_in rest
undos_in (Body.nested inner throws rest) = undos_in inner ++ undos_in rest

abbrev pub caches_in : Body → List String → List String
caches_in Body.done known = known
caches_in (Body.effect e rest) known = caches_in rest known
caches_in (Body.undo e rest) known = caches_in rest known
caches_in (Body.cache name rest) known = caches_in rest (add_cache name known)
caches_in (Body.nested inner throws rest) known = caches_in rest (caches_in inner known)

abbrev pub fails_in : Body → Bool
fails_in Body.done = false
fails_in (Body.effect e rest) = fails_in rest
fails_in (Body.undo e rest) = fails_in rest
fails_in (Body.cache name rest) = fails_in rest
fails_in (Body.nested inner throws rest) = fails_in inner || (throws || fails_in rest)

append_assoc : (xs ys zs : List String) → (xs ++ ys) ++ zs ≡ xs ++ (ys ++ zs)
append_assoc [] ys zs = refl
append_assoc (x ∷ xs) ys zs = ap (λ l. x ∷ l) (append_assoc xs ys zs)

append_nil : (xs : List String) → xs ++ [] ≡ xs
append_nil [] = refl
append_nil (x ∷ xs) = ap (λ l. x ∷ l) (append_nil xs)

-- The state that such a body leaves.
abbrev with_body : Body → BoundaryState → BoundaryState
with_body b s = record {
  depth = s.depth;
  failed = s.failed || fails_in b;
  caches = caches_in b s.caches;
  after_commit = s.after_commit ++ effects_in b;
  on_rollback = s.on_rollback ++ undos_in b;
}

collect-lists : (b : Body) (s : BoundaryState) → collect b s ≡ with_body b s
unfolding collect
collect-lists Body.done s =
    rw (append_nil s.after_commit, append_nil s.on_rollback, or_nothing s.failed) refl
  where
    or_nothing : (a : Bool) → (a || false) ≡ a
    or_nothing true = refl
    or_nothing false = refl
collect-lists (Body.effect e rest) s =
    collect-lists rest (record s { after_commit = s.after_commit ++ e ∷ [] })
    ∙ rw (append_assoc s.after_commit (e ∷ []) (effects_in rest)) refl
collect-lists (Body.undo e rest) s =
    collect-lists rest (record s { on_rollback = s.on_rollback ++ e ∷ [] })
    ∙ rw (append_assoc s.on_rollback (e ∷ []) (undos_in rest)) refl
collect-lists (Body.cache name rest) s =
    collect-lists rest (record s { caches = add_cache name s.caches })
collect-lists (Body.nested inner throws rest) s =
    ap (λ x. collect rest (record x { failed = x.failed || throws })) (collect-lists inner s)
    ∙ collect-lists rest
        (record (with_body inner s) { failed = (s.failed || fails_in inner) || throws })
    ∙ rw
        (
          append_assoc s.after_commit (effects_in inner) (effects_in rest),
          append_assoc s.on_rollback (undos_in inner) (undos_in rest),
          or_assoc s.failed (fails_in inner) throws (fails_in rest),
        )
        refl
  where
    or_assoc : (a b c d : Bool) → (((a || b) || c) || d) ≡ (a || (b || (c || d)))
    or_assoc true b c d = refl
    or_assoc false true c d = refl
    or_assoc false false true d = refl
    or_assoc false false false d = refl

-- Bodies nested to any depth, some of which throw and are caught, settle at the outermost boundary
-- only and once; afterwards no boundary is open. If no level threw and no caller's transaction is
-- still open, the log grows by the after-commit effects of all levels, in the order in which they
-- were registered; else by the invalidation of each cache that was named and then by the rollback
-- effects of all levels in their order.
pub outermost-settles_all :
    (body : Body) (throws : Bool) (c : Connection)
    → c.boundary ≡ none
    → (with_commit_boundary (λ d. (run_body body d, throws)) c).0 ≡ record c {
      boundary = none;
      log =
          c.log
          ++ (if fails_in body || (throws || c.in_transaction)
              then map Settled.invalidated (caches_in body []) ++ map Settled.ran (undos_in body)
              else map Settled.ran (effects_in body));
    }
unfolding with_commit_boundary begin_commit_boundary
outermost-settles_all body throws c closed = rw closed (
    ap (λ x. end_commit_boundary (if throws then true else x.in_transaction) x)
      (run_body-collect body c 0 nothing_registered
        ∙ ap (inside c 0) (collect-lists body nothing_registered))
    ∙ rw (either throws c.in_transaction)
        (end-outermost (throws || c.in_transaction) c (with_body body nothing_registered)))
  where
    either : (a b : Bool) → (if a then true else b) ≡ (a || b)
    either true b = refl
    either false b = refl
