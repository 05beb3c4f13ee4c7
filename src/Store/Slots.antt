-- ===== src/Store/Slots.antt =====
-- internal/store/capacity.go: the slot gate and the account selection inside a claim, and the rows of the
-- other jobs and of the fleet that a claim reads.
pub mod Room
use flowbee.Base.{
  ℕ, Bool, true, false, not, ◌&&◌, ◌||◌, if◌then◌else◌, List, [], ◌∷◌, Option, none, some,
}
use flowbee.Base.Lists.{keep, length}
use flowbee.Base.Int.{ℤ, pos, ltb_ℤ}
use flowbee.Base.Text.{Text, is_empty, text_eq}
use flowbee.Job.State.{State, has_active_lease}
use flowbee.Capacity.{Account, select_account, has_free_slot}
use flowbee.Store.Tables.{Worker}

-- What a claim reads of a row of `jobs`; a nullable column is an `Option`.
pub record Binding : Type 0 where
  pub id : Text
  pub state : State
  pub bound_identity : Option Text
  pub bound_model_family : Option Text
  pub builder_identity : Option Text
  pub builder_model_family : Option Text

-- A row of `worker_model_slots`.
pub record ModelSlots : Type 0 where
  pub worker_id : Text
  pub model_family : Text
  pub max_slots : ℤ

-- `accounts` are the rows of `worker_accounts` by rank and id, the order that the query asks for.
pub record Fleet : Type 0 where
  pub others : List Binding
  pub slots : List ModelSlots
  pub accounts : List Account

-- `column = ?`, which NULL never satisfies.
unfoldable pub is_text : Option Text → Text → Bool
is_text none t = false
is_text (some s) t = text_eq s t

unfoldable pub worker_of_identity : List Worker → Text → Option Worker
worker_of_identity [] identity = none
worker_of_identity (w ∷ ws) identity =
    let rest = worker_of_identity ws identity in
    if text_eq w.identity identity then some w else rest

unfoldable pub worker_of_id : List Worker → Text → Option Worker
worker_of_id [] id = none
worker_of_id (w ∷ ws) id =
    let rest = worker_of_id ws id in if text_eq w.worker_id id then some w else rest

unfoldable pub advertised : List ModelSlots → Text → Text → Option ℤ
advertised [] id family = none
advertised (s ∷ ss) id family =
    let rest = advertised ss id family in
    if text_eq s.worker_id id && text_eq s.model_family family then some s.max_slots else rest

-- `SELECT COUNT(*) FROM jobs WHERE bound_identity = ? AND state IN (…)`
unfoldable pub active_leases : Fleet → Text → ℕ
active_leases fleet identity =
    length (keep (λ b. is_text b.bound_identity identity && has_active_lease b.state) fleet.others)

-- The same for the leases of one model family.
unfoldable pub active_model_leases : Fleet → Text → Text → ℕ
active_model_leases fleet identity family = length (
    keep
      (λ b.
        is_text b.bound_identity identity
        && is_text b.bound_model_family family
        && has_active_lease b.state)
      fleet.others)

-- `legacyWorkerSlotGateTx`; true is a nil error, false `ErrNoCapacity`.
unfoldable pub legacy_slot_gate : Fleet → List Worker → Text → Text → Bool
legacy_slot_gate fleet workers id identity = elim (worker_of_id workers id) [
  | none ↦ true
  | some w ↦
      has_free_slot
        (if ltb_ℤ w.max_concurrent_leases (pos 1) then pos 1 else w.max_concurrent_leases)
        (pos (active_leases fleet identity))
]

unfoldable pub slot_gate_of : Fleet → List Worker → Text → Text → Text → Bool
slot_gate_of fleet workers id identity family = elim (advertised fleet.slots id family) [
  | none ↦ legacy_slot_gate fleet workers id identity
  | some max ↦ has_free_slot max (pos (active_model_leases fleet identity family))
]

-- `modelSlotGateTx`
unfoldable pub model_slot_gate : Fleet → List Worker → Text → Text → Text → Bool
model_slot_gate fleet workers id identity family =
    if is_empty identity || is_empty family
    then true
    else if not (is_empty id)
    then slot_gate_of fleet workers id identity family
    else elim (worker_of_identity workers identity) [
      | none ↦ true
      | some w ↦ slot_gate_of fleet workers w.worker_id identity family
    ]

family_accounts : Fleet → Text → List Account
family_accounts fleet family = keep (λ a. text_eq a.model_family family) fleet.accounts

has_accounts : List Account → Bool
has_accounts [] = false
has_accounts (a ∷ rest) = true

selected_id : Option Account → Option Text
selected_id none = none
selected_id (some a) = some a.account_id

-- `selectAccountTx`: the id of the account, or `none` for `ErrNoCapacity`.
unfoldable pub select_account_id : Fleet → Text → Option Text
unfolding family_accounts has_accounts selected_id
select_account_id fleet family =
    if is_empty family
    then some []
    else if not (has_accounts (family_accounts fleet family))
    then some []
    else selected_id (select_account (family_accounts fleet family) family)
