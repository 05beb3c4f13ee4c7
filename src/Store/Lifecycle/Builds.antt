-- ===== src/Store/Lifecycle/Builds.antt =====
-- The claim, the heartbeat, the result and the release of a build of internal/store/queries.go preserve
-- its soundness.
use flowbee.Base.{◌≡◌, refl, Option-cases, inl, inr, sym, subst, true, List, some, arith}
use flowbee.Base.Text.{Text}
use flowbee.Job.State.{ready}
use flowbee.Job.Record.{Job}
use flowbee.Ledger.Event.{zero_payload}
use flowbee.Ledger.Fold.{apply_event, fold_kind, is_human_gate}
use flowbee.Ledger.Fold.Invariants.{IsConsistent}
use flowbee.Ledger.Cases.Lease.{lease_claimed_case}
use flowbee.Ledger.Cases.Shared.{is_ready}
use flowbee.Engine.Review.{is_mergeable}
use flowbee.Store.Row.{logged}
use flowbee.Store.Row.Replay.{replayed-IsConsistent}
use flowbee.Store.Tables.{Tables, LeaseRow, insert_lease, committed}
use flowbee.Store.Slots.{Fleet, select_account_id}
use flowbee.Store.Claim.{
  ClaimParams, Lease, claimed_event, claimed_row, apply_claim, claim_with, may_claim,
  claim_ready_job, is_independent, claimed_lease, granted,
}
use flowbee.Store.Lifecycle.Soundness.{IsSound, append-IsSound, settled-logged}

claimed-IsConsistent :
    (p : ClaimParams) (j : Job)
    → IsConsistent j
    → j.state ≡ ready
    → IsConsistent (lease_claimed_case (claimed_event p j) j)
unfolding lease_claimed_case claimed_event is_human_gate zero_payload
claimed-IsConsistent p j c at = ground arith

claimed-logged :
    (p : ClaimParams) (j : Job)
    → IsConsistent j
    → j.state ≡ ready
    → logged (claimed_row p j) ≡ logged (apply_event j (claimed_event p j))
unfolding claimed_row claimed_event fold_kind lease_claimed_case zero_payload logged
claimed-logged p j c at =
    settled-logged j (lease_claimed_case (claimed_event p j) j) (claimed_row p j)
      (claimed_event p j) refl (refl, refl, refl) (claimed-IsConsistent p j c at) refl

pub apply_claim-IsSound :
    (p : ClaimParams) (db : Tables) (account : Text) (leases : List LeaseRow)
    → IsSound db.store
    → db.store.job.state ≡ ready
    → IsSound (apply_claim p db account leases).store
unfolding apply_claim is_mergeable claimed_row claimed_event fold_kind lease_claimed_case logged
apply_claim-IsSound p db account leases s at =
    let c = replayed-IsConsistent db.store s.replayed in
    append-IsSound db.store (claimed_row p db.store.job) (claimed_event p db.store.job) s
      (λ j. refl) (claimed-logged p db.store.job c at) s.builds refl
      (λ w. c.ready_build at s.builds) (λ v. s.unjudged (rw at refl)) refl

pub may_claim-ready :
    (p : ClaimParams) (db : Tables) (fleet : Fleet)
    → may_claim p db fleet ≡ true
    → db.store.job.state ≡ ready
unfolding may_claim is_ready
may_claim-ready p db fleet h = ground arith

pub claim_ready_job-committed :
    (p : ClaimParams) (db db' : Tables) (fleet : Fleet) (l : Lease)
    → claim_ready_job p db fleet ≡ committed (db', l)
    → (account : Text) × (leases : List LeaseRow) × (may_claim p db fleet ≡ true)
      × (is_independent p db fleet ≡ true)
      × (insert_lease (claimed_lease p db.store.job) db.leases ≡ some leases)
      × (db' ≡ apply_claim p db account leases)
      × (l ≡ granted p db.store.job)
unfolding claim_ready_job claim_with
claim_ready_job-committed p db db' fleet l h =
    elim (Option-cases (select_account_id fleet p.model_family)) [
      | inl e ↦ absurd (ground arith)
      | inr (account, e) ↦
          elim (Option-cases (insert_lease (claimed_lease p db.store.job) db.leases)) [
            | inl f ↦ absurd (ground arith)
            | inr (leases, f) ↦
                (account, leases, ground arith, ground arith, f, ground arith, ground arith)
          ]
    ]

pub claim_ready_job-IsSound :
    (p : ClaimParams) (db db' : Tables) (fleet : Fleet) (l : Lease)
    → claim_ready_job p db fleet ≡ committed (db', l)
    → IsSound db.store
    → IsSound db'.store
claim_ready_job-IsSound p db db' fleet l h s =
    let (account, leases, may, _, _, e, _) = claim_ready_job-committed p db db' fleet l h in
    subst (λ d. IsSound d.store) (sym e)
      (apply_claim-IsSound p db account leases s (may_claim-ready p db fleet may))
