-- ===== src/Notify/Policy/Owed.antt =====
-- About which withdrawals `setDeliveryMode` of src/notify/delivery-policy.ts opens again.
use lp_monitor.Prelude.{
  ◌≤◌, ◌<◌, leb, ltb, ◌≡◌, refl, ◌⊎◌, inl, inr, Bool, true, false, not, ◌&&◌, ◌||◌, Bool-cases,
  Option, none, some, String, str_eq, eq_iff, List, [], ◌∷◌, every, All, arith,
}
use lp_monitor.Notify.Tables.{
  CaptureMode, Status, Reason, Row, Authority, Db, is_live, is_sent, is_superseded, is_disabled,
  same_alert, find_authority,
}
use lp_monitor.Notify.Policy.{of_scope, has_withdrawn, is_owed}

-- The ledger holds the alert as withdrawn, in the revision of the row.
abbrev pub IsWithdrawn : Db → Row → Type 0
IsWithdrawn db r =
    (a : Authority) × (find_authority r.scope_id r.alert_id db.alerts ≡ some a)
    × (a.active ≡ false)
    × (a.revision ≡ r.revision)

-- Another row of the same alert is no newer, and older if it was sent.
abbrev pub Outlived : Row → Row → Type 0
Outlived r x =
    (str_eq x.scope_id r.scope_id && str_eq x.alert_id r.alert_id ≡ false)
    ⊎ (x.revision ≤ r.revision) × ((is_sent x.status ≡ false) ⊎ (x.revision < r.revision))

-- A row that silence closed, and that is the withdrawal of its alert: the ledger holds the alert as
-- withdrawn in the same revision, no row of the alert has a higher one, and each that was sent has a
-- lower one. A row of the alert need not have been sent.
abbrev pub IsOwed : Db → String → Row → Type 0
IsOwed db scope r =
    (r.scope_id ≡ scope)
    × (r.capture_mode ≡ CaptureMode.live)
    × (r.status ≡ Status.superseded)
    × (r.last_error ≡ some Reason.delivery_disabled)
    × (r.payload.retracted ≡ true)
    × (0 < r.revision)
    × IsWithdrawn db r
    × All (Outlived r) db.outbox

withdrawn-IsWithdrawn :
    (r : Row) (o : Option Authority)
    → has_withdrawn r o ≡ true
    → (a : Authority) × (o ≡ some a) × (a.active ≡ false) × (a.revision ≡ r.revision)
withdrawn-IsWithdrawn r none h = ground arith
withdrawn-IsWithdrawn r (some a) h = (a, refl, ground arith, ground arith)

superseded-eq : (s : Status) → is_superseded s ≡ true → s ≡ Status.superseded
superseded-eq s h = ground arith

live-eq : (m : CaptureMode) → is_live m ≡ true → m ≡ CaptureMode.live
live-eq m h = ground arith

disabled-eq : (o : Option Reason) → is_disabled o ≡ true → o ≡ some Reason.delivery_disabled
disabled-eq none h = ground arith
disabled-eq (some reason) h = ground arith

abbrev no_newer : Row → Row → Bool
no_newer r x = not (same_alert r.scope_id r.alert_id x) || leb x.revision r.revision

abbrev sent_older : Row → Row → Bool
sent_older r x =
    not (same_alert r.scope_id r.alert_id x && is_sent x.status) || ltb x.revision r.revision

one-Outlived : (r x : Row) → no_newer r x ≡ true → sent_older r x ≡ true → Outlived r x
one-Outlived r x h k =
    elim (Bool-cases (str_eq x.scope_id r.scope_id && str_eq x.alert_id r.alert_id)) [
      | inl same ↦ ground arith
      | inr other ↦ inl other
    ]

every-Outlived :
    (r : Row) (rows : List Row)
    → every (no_newer r) rows ≡ true
    → every (sent_older r) rows ≡ true
    → All (Outlived r) rows
unfolding every
every-Outlived r [] h k = tt
every-Outlived r (x ∷ rows) h k =
    let (h1, hs) = both _ _ h in
    let (k1, ks) = both _ _ k in (one-Outlived r x h1 k1, every-Outlived r rows hs ks)
  where
    both : (a b : Bool) → (a && b) ≡ true → (a ≡ true) × (b ≡ true)
    both a b e = ground arith

Outlived-one : (r x : Row) → Outlived r x → (no_newer r x ≡ true) × (sent_older r x ≡ true)
Outlived-one r x o = ground arith

Outlived-every :
    (r : Row) (rows : List Row)
    → All (Outlived r) rows
    → (every (no_newer r) rows ≡ true) × (every (sent_older r) rows ≡ true)
unfolding every
Outlived-every r [] o = (refl, refl)
Outlived-every r (x ∷ rows) (o, os) =
    let (h, k) = Outlived-one r x o in let (hs, ks) = Outlived-every r rows os in rw (h, k) (hs, ks)

parted :
    (a b c d e f g h i : Bool)
    → (a && b && c && d && e && f && g && h && i) ≡ true
    → (a ≡ true)
      × (b ≡ true)
      × (c ≡ true)
      × (d ≡ true)
      × (e ≡ true)
      × (f ≡ true)
      × (g ≡ true)
      × (h ≡ true)
      × (i ≡ true)
parted a b c d e f g h i all = ground arith

pub is_owed-IsOwed :
    (db : Db) (scope : String) (r : Row) → is_owed db scope r ≡ true → IsOwed db scope r
unfolding is_owed
is_owed-IsOwed db scope r h =
    let (a, b, c, d, e, f, g, i, j) =
      parted (of_scope scope r) (is_live r.capture_mode) (is_superseded r.status)
        (is_disabled r.last_error)
        (has_withdrawn r (find_authority r.scope_id r.alert_id db.alerts)) r.payload.retracted
        (every (no_newer r) db.outbox) (ltb 0 r.revision) (every (sent_older r) db.outbox) h in
    (
      ground (arith, eq_iff r.scope_id scope, a),
      live-eq r.capture_mode b,
      superseded-eq r.status c,
      disabled-eq r.last_error d,
      f,
      ground (arith, i),
      withdrawn-IsWithdrawn r _ e,
      every-Outlived r db.outbox g j,
    )

pub IsOwed-is_owed :
    (db : Db) (scope : String) (r : Row) → IsOwed db scope r → is_owed db scope r ≡ true
unfolding is_owed
IsOwed-is_owed db scope r (a, b, c, d, f, i, (authority, found, gone, same), rows) =
    let (g, j) = Outlived-every r db.outbox rows in
    rw (b, c, d, f, found, gone, same, g, j) (ground (arith, eq_iff r.scope_id scope))
