-- ===== src/Store/Panel.antt =====
-- internal/store/flow.go: the queries of the review over the events of a job, which tell who approved in
-- the current round and how often a reviewer has asked for changes.
pub mod Quorum
use flowbee.Base.{ℕ, suc, ltb, Bool, true, false, not, ◌&&◌, if◌then◌else◌, List, [], ◌∷◌}
use flowbee.Base.Lists.{any, keep, length}
use flowbee.Base.Text.{Text, text_eq}
use flowbee.Job.Verdict.{approved_value, changes_requested_value}
use flowbee.Ledger.Event.{Event, EventKind}
use flowbee.Ledger.Event.EventKind.{
  verdict_claim, result_accepted, rebased, conflict_resolved, adopt_rearmed,
}

-- `kind IN ('result_accepted','rebased','conflict_resolved')`, as the claim has it.
unfoldable pub opens_round : EventKind → Bool
opens_round result_accepted = true
opens_round rebased = true
opens_round conflict_resolved = true
opens_round _ = false

-- The list as the tally has it, with 'adopt_rearmed' as well.
unfoldable pub opens_tally : EventKind → Bool
unfolding opens_round
opens_tally adopt_rearmed = true
opens_tally k = opens_round k

-- `COALESCE(MAX(job_seq), 0)` over the events whose kind is listed.
unfoldable pub last_opened : (EventKind → Bool) → List Event → ℕ
last_opened opens [] = 0
last_opened opens (e ∷ es) =
    let rest = last_opened opens es in
    if opens e.kind && ltb rest e.job_seq then e.job_seq else rest

is_verdict_claim : EventKind → Bool
is_verdict_claim verdict_claim = true
is_verdict_claim _ = false

unfoldable pub claims : Text → Event → Bool
unfolding is_verdict_claim
claims value e = is_verdict_claim e.kind && text_eq e.payload.verdict_claim value

-- An approval with a later sequence number than the round's start.
unfoldable pub approves_after : ℕ → Event → Bool
approves_after start e = claims approved_value e && ltb start e.job_seq

unfoldable pub approved_in_round : Text → List Event → Bool
approved_in_round identity es =
    any (λ e. approves_after (last_opened opens_round es) e && text_eq e.actor identity) es

-- `COUNT(DISTINCT actor)`: an actor counts where it stands last.
unfoldable pub distinct_actors : List Event → ℕ
distinct_actors [] = 0
distinct_actors (e ∷ es) =
    let rest = distinct_actors es in
    if any (λ f. text_eq f.actor e.actor) es then rest else suc rest

unfoldable pub prior_approvals : List Event → ℕ
prior_approvals es = distinct_actors (keep (approves_after (last_opened opens_tally es)) es)

unfoldable pub reviewer_rejections : Text → List Event → ℕ
reviewer_rejections identity es =
    length (keep (λ e. claims changes_requested_value e && text_eq e.actor identity) es)
