-- ===== src/Queue/Order.antt =====
-- Which job `JobQueue.claim` selects: WHERE status = 'queued' OR an expired lease, ORDER BY created_at,
-- job_id, LIMIT 1.
use sisyphus_harness.Prelude.{
  Bool, ◌&&◌, ◌||◌, Option, none, some, List, [], ◌∷◌, ◌==◌, if◌then◌else◌, select_all,
}
use sisyphus_harness.Prelude.Float.{Float, float_le}
use sisyphus_harness.Prelude.Text.{text_le}
use sisyphus_harness.Database.{JobRow, is_queued, is_running}

-- SQL's `lease_expires_at <= ?`, which is not true of NULL.
abbrev pub expired : Float → Option Float → Bool
expired current none = Bool.false
expired current (some expires) = float_le expires current

abbrev pub claimable : Float → JobRow → Bool
claimable current r =
    is_queued r.status || (is_running r.status && expired current r.lease_expires_at)

abbrev pub row_le : JobRow → JobRow → Bool
row_le r s =
    if r.created_at == s.created_at
    then text_le r.job_id s.job_id
    else text_le r.created_at s.created_at

-- The first row of the order, among the earlier of equals.
abbrev pub first_of_two : JobRow → Option JobRow → Option JobRow
first_of_two r none = some r
first_of_two r (some s) = if row_le r s then some r else some s

unfoldable pub first_row : List JobRow → Option JobRow
first_row [] = none
first_row (r ∷ rows) = first_of_two r (first_row rows)

unfoldable pub first_claimable : Float → List JobRow → Option JobRow
unfolding first_row
first_claimable current rows = first_row (select_all (claimable current) rows)
