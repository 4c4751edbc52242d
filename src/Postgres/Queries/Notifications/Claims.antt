-- ===== src/Postgres/Queries/Notifications/Claims.antt =====
-- What a claim of due notifications does to the table.
use subscription_reconciler.Base.{◌+◌, ◌≡◌, refl, Bool, true, map, List, [], ◌∷◌, arith}
use subscription_reconciler.Base.Lists.{filter, count_where, length, update_where}
use subscription_reconciler.Clock.{Time}
use subscription_reconciler.Postgres.Models.{Notification}
use subscription_reconciler.Postgres.Queries.Notifications.{
  is_unsent, is_claimed, sent_now, returned,
}

abbrev pub is_pending : Notification → Bool
is_pending n = is_unsent n.sent_at

-- Every claimed row is taken off the unsent ones, and no other: nothing is claimed twice or lost.
pub claim_accounts :
    (now : Time) (due rows : List Notification)
    → count_where is_pending (update_where (is_claimed due) (sent_now now) rows)
        + length (returned now due rows)
      ≡ count_where is_pending rows
claim_accounts now due [] = omega arith
claim_accounts now due (n ∷ ns) = ground (arith, claim_accounts now due ns)

-- The rows that a claim returns are the ones that it marks, each once and as it leaves it.
pub returned_lem :
    (now : Time) (due rows : List Notification)
    → returned now due rows ≡ map (sent_now now) (filter (is_claimed due) rows)
returned_lem now due [] = refl
returned_lem now due (n ∷ ns) = ground (arith, returned_lem now due ns)

pub claimed-pending :
    (due : List Notification) (n : Notification) → is_claimed due n ≡ true → is_pending n ≡ true
claimed-pending due n h = ground (arith, h)
