-- ===== src/Store/Lifecycle/Effects.antt =====
-- What each transaction of internal/store does to the lease of a build: it leaves it, grants a new one, or
-- ends the one that is held.
use flowbee.Base.{
  ◌≡◌, refl, ◌⊎◌, inl, inr, Bool, true, false, List, [], ◌∷◌, ◌++◌, none, some, ℕ, ◌+◌, arith,
  Bool-cases,
}
use flowbee.Base.Text.{Text, bytes}
use flowbee.Job.State.{State, failed, needs_human, has_active_lease}
use flowbee.Job.Transition.{next}
use flowbee.Engine.Types.{Transition, redispatch_target}
use flowbee.Store.Release.{
  ReleaseParams, rearm_state, apply_release, released_row, is_exhausted, exhausted_row,
}
use flowbee.Store.Return.{release_writes}
use flowbee.Store.Revoke.{apply_revoke, revoked_row, end_reason, bumped_epoch}
use flowbee.Store.Tables.{Tables, LeaseRow, insert_lease, close_lease, append}
use flowbee.Store.Lifecycle.Soundness.{IsSound, is_build_stage, revoked-to}
use flowbee.Store.Lifecycle.Beats.{Revokes}

abbrev pub active : Tables → Bool
active db = has_active_lease db.store.job.state

abbrev pub epoch_of : Tables → ℕ
epoch_of db = db.store.job.lease_epoch

pub data Effect (db db' : Tables) : Type 0 where
  keeps :
      epoch_of db' ≡ epoch_of db
      → db'.store.job.state ≡ db.store.job.state
      → db'.leases ≡ db.leases
      → Effect db db'
  grants :
      (r : LeaseRow)
      → active db ≡ false
      → active db' ≡ true
      → epoch_of db' ≡ epoch_of db + 1
      → r.lease_epoch ≡ epoch_of db + 1
      → r.end_reason ≡ none
      → db'.leases ≡ db.leases ++ r ∷ []
      → Effect db db'
  ends :
      (reason : Text)
      → active db ≡ true
      → active db' ≡ false
      → (epoch_of db' ≡ epoch_of db) ⊎ (epoch_of db' ≡ epoch_of db + 1)
      → db'.leases ≡ close_lease (epoch_of db) reason db.leases
      → Effect db db'

-- A row that is inserted is the last one.
pub insert_lease-some :
    (r : LeaseRow) (rows rows' : List LeaseRow)
    → insert_lease r rows ≡ some rows'
    → rows' ≡ rows ++ r ∷ []
unfolding insert_lease
insert_lease-some r rows rows' h = ground arith

revoked_idle :
    (from to : State)
    → is_build_stage from ≡ true
    → has_active_lease from ≡ true
    → (to ≡ failed) ⊎ (to ≡ needs_human) ⊎ (to ≡ redispatch_target from)
    → has_active_lease to ≡ false
unfolding has_active_lease redispatch_target
revoked_idle from to b a h = ground arith

pub revoked-Effect :
    (db : Tables) (t : Transition) (ts : List Transition) (now : ℕ) (reason : Text)
    → IsSound db.store
    → active db ≡ true
    → Revokes db.store.job.state (t ∷ ts)
    → Effect db (apply_revoke db t (bumped_epoch db.store.job t) now reason)
unfolding apply_revoke revoked_row bumped_epoch append
revoked-Effect db t ts now reason s a (to, r, bump, lands) =
    let idle = revoked_idle db.store.job.state to s.placed a lands in
    ends (end_reason t) a (rw (revoked-to db.store.job.state to t r) idle) (rw bump (inr refl)) refl

released_idle :
    (s : State)
    → is_build_stage s ≡ true
    → has_active_lease s ≡ true
    → has_active_lease (rearm_state s) ≡ false
unfolding rearm_state next has_active_lease
released_idle s b a = ground arith

pub released-Effect :
    (db : Tables) (p : ReleaseParams) (burns : Bool)
    → IsSound db.store
    → active db ≡ true
    → Effect db
        (release_writes db (apply_release p db.store (rearm_state db.store.job.state) burns))
unfolding release_writes apply_release released_row exhausted_row has_active_lease
released-Effect db p burns s a =
    let idle = released_idle db.store.job.state s.placed a in
    elim (Bool-cases (is_exhausted db.store.job burns)) [
      | inl e ↦ rw e (ends (bytes "released") a refl (inl refl) refl)
      | inr e ↦ rw e (ends (bytes "released") a idle (inl refl) refl)
    ]
