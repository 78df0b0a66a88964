-- ===== src/Notify/Policy/Enabled.antt =====
-- About what enabling does in `setDeliveryMode` of src/notify/delivery-policy.ts.
use lp_monitor.Prelude.{◌≡◌, ◌⊎◌, Bool, true, false, not, ◌&&◌, none, String, List, [], ◌∷◌}
use lp_monitor.Notify.Tables.{Status, Row, Db, is_open}
use lp_monitor.Notify.Outbox.{is_claimable}
use lp_monitor.Notify.Policy.Owed.{IsOwed}

abbrev pub is_ordinary_open : Row → Bool
is_ordinary_open r = is_open r.status && not r.payload.retracted

-- What enabling does to a row: it is opened and can be claimed at once if it is owed, and is kept if
-- it is not.
abbrev pub Settles : Db → String → Db → Row → Row → Type 0
Settles db scope after r s =
    IsOwed db scope r
      × (s ≡ record r { status = Status.pending; last_error = none })
      × (is_claimable after s ≡ true)
    ⊎ (¬ IsOwed db scope r) × (s ≡ r)

abbrev pub Each : (Row → Row → Type 0) → List Row → List Row → Type 0
Each R [] [] = Unit
Each R [] (s ∷ ss) = Path Bool true false
Each R (r ∷ rs) [] = Path Bool true false
Each R (r ∷ rs) (s ∷ ss) = R r s × Each R rs ss
