-- ===== src/Job/State/Bounds.antt =====
-- The range of the priorities of internal/job/job.go.
use flowbee.Base.{◌≡◌, ◌↔◌, arith}
use flowbee.Base.Int.{ℤ, ◌≤ℤ◌}
use flowbee.Job.State.{normalize_priority, most_urgent_priority, least_urgent_priority}

-- A normalized priority lies between 1 and 10, and exactly the numbers of that range are left as
-- they are; so normalizing twice is normalizing once.
pub normalize_priority-bounds :
    (p : ℤ)
    → (most_urgent_priority ≤ℤ normalize_priority p)
      × (normalize_priority p ≤ℤ least_urgent_priority)
      × ((normalize_priority p ≡ p) ↔ ((most_urgent_priority ≤ℤ p) × (p ≤ℤ least_urgent_priority)))
      × (normalize_priority (normalize_priority p) ≡ normalize_priority p)
unfolding normalize_priority
normalize_priority-bounds p = ground arith
