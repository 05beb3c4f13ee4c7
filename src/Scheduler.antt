-- ===== src/Scheduler.antt =====
-- internal/scheduler/scheduler.go: candidates, aged priority, and the offer order.
pub mod Ranking
pub mod Reservation
use flowbee.Base.{
  ℕ, ◌+◌, ◌-◌, ◌*◌, ◌/◌, Bool, true, false, not, ◌&&◌, if◌then◌else◌, List, [], ◌∷◌, Option, none,
  some, ltb,
}
use flowbee.Base.Text.{Text, text_lt}
use flowbee.Base.Int.{ℤ, pos, pos_part, neg, ◌+ℤ◌, leb_ℤ, ltb_ℤ}
use flowbee.Base.Lists.{keep}
use flowbee.Base.Sorting.{sort_stable}
use flowbee.Job.Caps.{capabilities_satisfy}

-- 600 seconds in nanoseconds.
abbrev pub aging_rate : ℤ
aging_rate = pos 600000000000

pub record Candidate : Type 0 where
  pub job_id : Text
  pub priority : ℤ
  pub enqueued_at : ℕ
  pub required_capabilities : List Text
  pub ci_ready : Bool

-- `now.Sub(c.EnqueuedAt)`, at least 0.
unfoldable pub waited : Candidate → ℕ → ℕ
waited c now = if ltb now c.enqueued_at then 0 else now - c.enqueued_at

unfoldable pub effective_priority : Candidate → ℕ → ℤ → ℤ
effective_priority c now rate =
    if leb_ℤ rate (pos 0)
    then neg c.priority
    else neg c.priority +ℤ pos (waited c now / pos_part rate)

unfoldable pub eligible : List Text → Candidate → Bool
eligible attested c = capabilities_satisfy attested c.required_capabilities

-- The ties: older first, then by id.
unfoldable pub older_before : Candidate → Candidate → Bool
older_before a b =
    if ltb a.enqueued_at b.enqueued_at
    then true
    else if ltb b.enqueued_at a.enqueued_at
    then false
    else text_lt a.job_id b.job_id

-- Higher aged priority first.
unfoldable pub ranks_before : ℕ → ℤ → Candidate → Candidate → Bool
ranks_before now rate a b =
    let ea = effective_priority a now rate in
    let eb = effective_priority b now rate in
    if ltb_ℤ eb ea then true else if ltb_ℤ ea eb then false else older_before a b

-- `Order` offers CI-ready reviews first.
unfoldable pub offers_before : ℕ → Candidate → Candidate → Bool
offers_before now a b =
    if a.ci_ready && not b.ci_ready
    then true
    else if not a.ci_ready && b.ci_ready
    then false
    else ranks_before now aging_rate a b

unfoldable pub first : List Candidate → Option Candidate
first [] = none
first (c ∷ cs) = some c

unfoldable pub pick_with : List Candidate → List Text → ℕ → ℤ → Option Candidate
pick_with cands attested now rate =
    first (sort_stable (ranks_before now rate) (keep (eligible attested) cands))

unfoldable pub pick : List Candidate → List Text → ℕ → Option Candidate
pick cands attested now = pick_with cands attested now aging_rate

unfoldable pub order : List Candidate → List Text → ℕ → List Candidate
order cands attested now = sort_stable (offers_before now) (keep (eligible attested) cands)
