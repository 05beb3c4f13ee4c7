-- ===== src/Scheduler/Reservation.antt =====
-- internal/scheduler/reservation.go: the write-sets of builds, and the filter that keeps two builds
-- with overlapping write-sets from running together. White space is that of ASCII text.
pub mod Filter
use flowbee.Base.{
  ℕ, Bool, true, false, not, ◌&&◌, ◌||◌, if◌then◌else◌, List, [], ◌∷◌, ◌++◌, map, Option, none,
  some, ◌==◌, leb,
}
use flowbee.Base.Text.{Text, bytes, text_eq, is_empty}
use flowbee.Base.Lists.{any, keep}
use flowbee.Base.Strings.{starts_with, trim_space, trim_prefix, forward_slashes, as_directory}
use flowbee.Scheduler.{Candidate}

unfoldable pub normalize_resv_path : Text → Text
normalize_resv_path p =
    trim_prefix (bytes "/") (trim_prefix (bytes "./") (forward_slashes (trim_space p)))

unfoldable pub normalized_non_empty : List Text → List Text
normalized_non_empty paths = keep (λ p. not (is_empty p)) (map normalize_resv_path paths)

pub record WriteSet : Type 0 where
  pub paths : List Text
  pub wide : Bool

-- `len(xs) == 0`
unfoldable pub no_paths : List Text → Bool
no_paths [] = true
no_paths (p ∷ ps) = false

unfoldable pub is_wide : WriteSet → Bool
is_wide w = w.wide || no_paths (normalized_non_empty w.paths)

pub record Reservation : Type 0 where
  pub job_id : Text
  pub write_set : WriteSet

unfoldable pub is_prefix_dir : Text → Text → Bool
is_prefix_dir parent child = starts_with (as_directory parent) child

unfoldable pub paths_overlap : Text → Text → Bool
paths_overlap a b = if text_eq a b then true else is_prefix_dir a b || is_prefix_dir b a

unfoldable pub overlaps : WriteSet → WriteSet → Bool
overlaps w other =
    if is_wide w || is_wide other
    then true
    else any (λ a. any (paths_overlap a) (normalized_non_empty other.paths))
        (normalized_non_empty w.paths)

-- The zero write-set and `false` for a job with no entry.
unfoldable pub candidate_write_set : Text → (Text → Option WriteSet) → WriteSet × Bool
candidate_write_set job_id write_set_of = elim (write_set_of job_id) [
  | none ↦ (record { paths = []; wide = false }, false)
  | some ws ↦ (ws, ws.wide || not (no_paths (normalized_non_empty ws.paths)))
]

-- What withholds a candidate: for a declared one an overlap, for another one a wide reservation.
unfoldable pub withholds : WriteSet → Bool → Reservation → Bool
withholds ws declared r = if declared then overlaps ws r.write_set else is_wide r.write_set

unfoldable pub blocking_reservation : Text → WriteSet → Bool → List Reservation → Option Text
blocking_reservation job_id ws declared [] = none
blocking_reservation job_id ws declared (r ∷ active) =
    let rest = blocking_reservation job_id ws declared active in
    if text_eq r.job_id job_id
    then rest
    else if withholds ws declared r
    then some r.job_id
    else rest

unfoldable pub reservation_conflicts : Text → WriteSet → Bool → List Reservation → Bool
reservation_conflicts job_id ws declared active =
    elim (blocking_reservation job_id ws declared active) [ none ↦ false | some holder ↦ true ]

unfoldable pub blocked_by : Text → List Reservation → (Text → Option WriteSet) → Option Text
blocked_by job_id active write_set_of =
    let (ws, declared) = candidate_write_set job_id write_set_of in
    blocking_reservation job_id ws declared active

-- The test of the loop, for a candidate that stays.
unfoldable pub stays : List Reservation → (Text → Option WriteSet) → Candidate → Bool
stays active write_set_of c =
    let (ws, declared) = candidate_write_set c.job_id write_set_of in
    not (reservation_conflicts c.job_id ws declared active)

unfoldable pub reservation_filter :
    List Candidate → List Reservation → (Text → Option WriteSet) → List Candidate
reservation_filter cands [] write_set_of = cands
reservation_filter cands (r ∷ active) write_set_of = keep (stays (r ∷ active) write_set_of) cands
