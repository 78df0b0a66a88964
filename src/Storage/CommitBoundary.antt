-- ===== src/Storage/CommitBoundary.antt =====
-- src/storage/commit-boundary.ts: effects and cache invalidations that wait until the outermost
-- transaction settles. An effect and a cache are names here; `log` says which were run, in order.
pub mod Nested
use lp_monitor.Prelude.{
  ℕ, suc, ◌+◌, ◌-◌, ltb, if◌then◌else◌, Bool, true, false, not, ◌&&◌, ◌||◌, Option, none, some,
  String, str_eq, List, [], ◌∷◌, ◌++◌, map,
}

pub data Settled : Type 0 where
  invalidated ran : String → Settled

pub record BoundaryState : Type 0 where
  pub depth : ℕ
  pub failed : Bool
  pub caches : List String
  pub after_commit : List String
  pub on_rollback : List String

-- What the module keeps of one database connection, and whether a transaction is open on it.
pub record Connection : Type 0 where
  pub boundary : Option BoundaryState
  pub in_transaction : Bool
  pub log : List Settled

abbrev opened : Option BoundaryState → BoundaryState
opened none = record { depth = 1; failed = false; caches = []; after_commit = []; on_rollback = [] }
opened (some s) = record s { depth = s.depth + 1 }

-- The second part says whether this call opened the outermost boundary.
unfoldable pub begin_commit_boundary : Connection → Connection × Bool
begin_commit_boundary c = (
  record c { boundary = some (opened c.boundary) },
  elim c.boundary [ none ↦ true | some s ↦ false ],
)

abbrev with_state : (BoundaryState → BoundaryState) → Connection → Connection
with_state f c = record c { boundary = elim c.boundary [ none ↦ none | some s ↦ some (f s) ] }

unfoldable pub after_commit : String → Connection → Connection
after_commit effect = with_state (λ s. record s { after_commit = s.after_commit ++ effect ∷ [] })

unfoldable pub on_rollback : String → Connection → Connection
on_rollback effect = with_state (λ s. record s { on_rollback = s.on_rollback ++ effect ∷ [] })

-- `Set.add`.
unfoldable pub add_cache : String → List String → List String
add_cache cache [] = cache ∷ []
add_cache cache (c ∷ cs) = if str_eq c cache then c ∷ cs else c ∷ add_cache cache cs

unfoldable pub register_rollback_invalidation : String → Connection → Connection
register_rollback_invalidation cache =
    with_state (λ s. record s { caches = add_cache cache s.caches })

abbrev pub settled_log : BoundaryState → List Settled
settled_log s =
    if s.failed
    then map Settled.invalidated s.caches ++ map Settled.ran s.on_rollback
    else map Settled.ran s.after_commit

abbrev close : BoundaryState → Connection → Connection
close s c =
    if ltb 0 (s.depth - 1)
    then record c { boundary = some (record s { depth = s.depth - 1 }) }
    else record c { boundary = none; log = c.log ++ settled_log s }

unfoldable pub end_commit_boundary : Bool → Connection → Connection
end_commit_boundary rollback c = elim c.boundary [
  | none ↦ c
  | some s ↦ close (record s { failed = s.failed || rollback }) c
]

-- `work` says how it leaves the connection and whether it throws.
unfoldable pub with_commit_boundary :
    (Connection → Connection × Bool) → Connection → Connection × Bool
with_commit_boundary work c =
    let (entered, outermost) = begin_commit_boundary c in
    let (left, throws) = work entered in
    (end_commit_boundary (if throws then true else outermost && left.in_transaction) left, throws)
