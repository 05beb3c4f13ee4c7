-- ===== src/Examples/Queue.antt =====
-- The theorems on internal/scheduler and internal/capacity, applied to a sample queue.
use flowbee.Base.{
  ℕ, ◌≡◌, ◌≢◌, ◌⊎◌, ◌↔◌, inr, refl, Bool, true, false, List, [], ◌∷◌, Option, some, arith,
}
use mathlib.Core.List.{Memᴰ, Perm}
use flowbee.Base.Text.{Text, bytes, is_empty, text_eq, text_lt}
use flowbee.Base.Int.{pos, negsuc, neg, ◌+ℤ◌, ◌≤ℤ◌}
use flowbee.Job.State.{normalize_priority, most_urgent_priority, least_urgent_priority}
use flowbee.Job.State.Bounds.{normalize_priority-bounds}
use flowbee.Base.Strings.{trim_prefix, rest_after, forward_slashes, trim_left, trim_right}
use flowbee.Base.Lists.{keep, any, all}
use flowbee.Base.Sorting.{sort_stable, insert_by}
use flowbee.Job.Caps.{capabilities_satisfy, satisfied, have}
use flowbee.Scheduler.{
  Candidate, order, eligible, offers_before, ranks_before, waited, effective_priority, older_before,
}
use flowbee.Scheduler.Ranking.{order_correct, aging_overtakes, InOrder}
use flowbee.Scheduler.Reservation.{
  normalized_non_empty, normalize_resv_path, WriteSet, Reservation, reservation_filter, blocked_by,
}
use flowbee.Scheduler.Reservation.Filter.{reservation_filter-exact, Unblocked, KeepsOut}
use flowbee.Job.Caps.Match.{Meets}
use flowbee.Capacity.{Account, UsageReport, select_account}
use flowbee.Capacity.Selection.{select_account-optimal, HasRoom, Precedes}

abbrev candidate : Text → ℕ → ℕ → Bool → Candidate
candidate id priority enqueued ready = record {
  job_id = id;
  priority = pos priority;
  enqueued_at = enqueued;
  required_capabilities = bytes "role:code_reviewer" ∷ [];
  ci_ready = ready;
}

-- An urgent job that has just come in, and an idle one that has waited for four periods of ten.
abbrev urgent : Candidate
urgent = candidate (bytes "b") 2 40 false

abbrev patient : Candidate
patient = candidate (bytes "a") 5 0 true

abbrev queue : List Candidate
queue = urgent ∷ patient ∷ []

abbrev attested : List Text
attested = bytes "role:code_reviewer" ∷ []

order_correct_example :
    Perm (order queue attested 40) (keep (eligible attested) queue)
    × ((c : Candidate)
        → (eligible attested c ≡ true)
          ↔ ((req : Text) → Memᴰ req c.required_capabilities → Meets attested req))
    × InOrder 40 (order queue attested 40)
order_correct_example = order_correct queue attested 40

sample_eligible : eligible attested urgent ≡ true
unfolding eligible capabilities_satisfy satisfied have all any text_eq bytes
sample_eligible = refl

abbrev second : Candidate
second = candidate (bytes "c") 5 10 true

sample_order : order (urgent ∷ second ∷ patient ∷ []) attested 40 ≡ patient ∷ second ∷ urgent ∷ []
unfolding order keep sort_stable insert_by eligible capabilities_satisfy satisfied have all any
    text_eq bytes offers_before ranks_before effective_priority older_before waited text_lt ◌+ℤ◌ neg
sample_order = refl

sample_waits : (waited urgent 40 ≡ 0) × (waited patient 40 ≡ 40)
unfolding waited
sample_waits = (refl, refl)

aging_overtakes_example : ranks_before 40 (pos 10) patient urgent ≡ true
aging_overtakes_example =
    aging_overtakes 40 10 3 patient urgent 5 2 (omega arith) refl refl (omega arith)
      (omega (arith, sample_waits.0, sample_waits.1))

abbrev docs_only : WriteSet
docs_only = record { paths = bytes "docs/" ∷ []; wide = false }

abbrev guide : WriteSet
guide = record { paths = bytes "./docs/guide.md" ∷ []; wide = false }

abbrev in_flight : List Reservation
in_flight = record { job_id = bytes "c"; write_set = docs_only } ∷ []

abbrev declared : Text → Option WriteSet
declared id = some guide

reservation_filter-exact_example :
    (Memᴰ urgent (reservation_filter queue in_flight declared)
      ↔ Unblocked in_flight declared (bytes "b"))
    × (Memᴰ urgent (reservation_filter queue in_flight declared)
        ⊎ ((r : Reservation) × Memᴰ r in_flight
            × (blocked_by (bytes "b") in_flight declared ≡ some r.job_id)
            × (r.job_id ≢ bytes "b")
            × KeepsOut r.write_set (some guide)))
reservation_filter-exact_example =
    reservation_filter-exact queue in_flight declared urgent (Memᴰ.head refl)

abbrev account : Account
account = record {
  account_id = bytes "acct-1";
  model_family = bytes "claude";
  ceiling_pct = pos 80;
  preference_rank = pos 1;
  usage_pct = pos 30;
  rate_limited = false;
}

below : HasRoom account
below = (refl, inr (ground arith))

select_account-optimal_example :
    (c : Account) × (select_account (account ∷ []) (bytes "claude") ≡ some c)
    × Memᴰ c (account ∷ [])
    × (c.model_family ≡ bytes "claude")
    × HasRoom c
    × (¬ Precedes account c)
select_account-optimal_example =
    select_account-optimal (account ∷ []) (bytes "claude") account (Memᴰ.head refl) refl below

abbrev full_report : UsageReport
full_report = record {
  account_id = bytes "acct-1";
  model_family = bytes "claude";
  usage_pct = pos 85;
  rate_limited = false;
}

normalized_guide :
    normalized_non_empty (bytes "  ./docs\\guide.md " ∷ bytes "/" ∷ []) ≡ bytes "docs/guide.md" ∷ []
unfolding normalized_non_empty normalize_resv_path keep is_empty bytes trim_prefix rest_after
    forward_slashes trim_left trim_right
normalized_guide = refl

normalize_priority-bounds_example :
    (most_urgent_priority ≤ℤ normalize_priority (negsuc 4))
    × (normalize_priority (negsuc 4) ≤ℤ least_urgent_priority)
    × ((normalize_priority (negsuc 4) ≡ negsuc 4)
        ↔ ((most_urgent_priority ≤ℤ negsuc 4) × (negsuc 4 ≤ℤ least_urgent_priority)))
    × (normalize_priority (normalize_priority (negsuc 4)) ≡ normalize_priority (negsuc 4))
normalize_priority-bounds_example = normalize_priority-bounds (negsuc 4)
