-- ===== src/Queue/Args.antt =====
-- What the operations of queue.py take from elsewhere, and the tests on their arguments.
use sisyphus_harness.Prelude.{String, not, ◌&&◌, Option, none, some, ◌==◌}
use sisyphus_harness.Prelude.Float.{Float, is_finite, float_zero, float_le}
use sisyphus_harness.Prelude.Text.{strip}
use sisyphus_harness.Contracts.{AttemptFinished}
use sisyphus_harness.Contracts.Json.{Json}
use sisyphus_harness.Database.{value_error, Result, ok, ◌>>=◌, ◌>>◌, require}

-- What the operations take from elsewhere: `json.dumps` with sorted keys, the sum of two floats, and
-- the canonical JSON and the SHA-256 digest of an attempt.
pub record Env : Type 0 where
  pub dumps : Json → String
  pub add : Float → Float → Float
  pub attempt_json : AttemptFinished → String
  pub attempt_digest : AttemptFinished → String

-- When a call is made: its argument `now`, the clock that stands in for it, and `_utc_now()`.
pub record Moment : Type 0 where
  pub now : Option Float
  pub clock : Float
  pub utc : String

unfoldable pub current_time : Moment → Float
current_time m = elim m.now [ none ↦ m.clock | some t ↦ t ]

-- `_lease_window`
unfoldable pub lease_window : Env → Float → Moment → Result (Float × Float)
unfolding current_time is_finite float_le
lease_window env lease_seconds m = do
  require (is_finite lease_seconds && not (float_le lease_seconds float_zero)) value_error
  let current = current_time m
  require (is_finite current) value_error
  let expires = env.add current lease_seconds
  require (is_finite expires) value_error
  ok (current, expires)

-- A name without the blanks around it, which must not be empty.
unfoldable pub non_empty : String → Result String
unfolding strip
non_empty s = do require (not (strip s == "")) value_error; ok (strip s)

unfoldable pub enqueue_args : String → String → Result (String × String)
unfolding non_empty
enqueue_args kind idempotency_key = do
  k ← non_empty kind
  key ← non_empty idempotency_key
  ok (k, key)

unfoldable pub claim_args : Env → String → Float → Moment → Result (String × Float × Float)
unfolding non_empty lease_window
claim_args env worker_id lease_seconds m = do
  w ← non_empty worker_id
  t ← lease_window env lease_seconds m
  ok (w, t.0, t.1)

unfoldable pub heartbeat_args :
    Env → String → String → Float → Moment → Result (String × String × Float × Float)
unfolding non_empty lease_window
heartbeat_args env job_id worker_id lease_seconds m = do
  j ← non_empty job_id
  w ← non_empty worker_id
  t ← lease_window env lease_seconds m
  ok (j, w, t.0, t.1)

-- The tests of `_finish` on their arguments.
unfoldable pub finish_args : String → String → Moment → Result (String × String × Float)
unfolding non_empty current_time is_finite
finish_args job_id worker_id m = do
  j ← non_empty job_id
  w ← non_empty worker_id
  require (is_finite (current_time m)) value_error
  ok (j, w, current_time m)

-- The tests of `finish_attempt`, of which one binds the attempt to the job.
unfoldable pub finish_attempt_args :
    String → String → AttemptFinished → Moment → Result (String × String × Float)
unfolding non_empty current_time is_finite
finish_attempt_args job_id worker_id attempt m = do
  j ← non_empty job_id
  w ← non_empty worker_id
  require (attempt.job_id == j) value_error
  require (is_finite (current_time m)) value_error
  ok (j, w, current_time m)
