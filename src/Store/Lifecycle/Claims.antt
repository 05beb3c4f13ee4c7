-- ===== src/Store/Lifecycle/Claims.antt =====
-- When `ClaimReadyJob` of internal/store/queries.go commits.
use flowbee.Base.{
  ◌≡◌, refl, sym, ap, subst, ◌∙◌, ◌↔◌, ◌≢◌, inl, inr, Bool, true, false, List, [], ◌∷◌, ◌++◌, none,
  some, ℕ, ◌+◌, ◌<◌, arith, Option-cases,
}
use mathlib.Core.List.{Memᴰ}
use flowbee.Base.Lists.{any}
use flowbee.Job.State.{State, ready}
use flowbee.Job.Caps.Match.{Meets, capabilities_satisfy_iff}
use flowbee.Store.Slots.Room.{
  IsServed, HasAccount, model_slot_gate_iff, select_account_id-some, select_account_id-none,
}
use flowbee.Store.Claim.Guards.{IsUninvolved, is_independent_iff}
use flowbee.Base.Text.{Text, text_eq}
use flowbee.Store.Tables.{
  Tables, LeaseRow, TxError, is_lease_conflict, insert_lease, append, committed, rolled_back,
  lost_race,
}
use flowbee.Store.Slots.{Fleet, select_account_id}
use flowbee.Ledger.Cases.Shared.{is_ready}
use flowbee.Store.Claim.{
  claimed_row, ClaimParams, Lease, may_claim, is_independent, claimed_lease, apply_claim, granted,
  claim_with, claim_ready_job,
}
use flowbee.Store.Lifecycle.Builds.{claim_ready_job-committed}
use flowbee.Store.Lifecycle.Effects.{epoch_of}
use flowbee.Store.Lifecycle.Leases.{Rising, IsAudited}

-- Some lease row of the job has that id already.
abbrev pub has_lease_id : Text → Tables → Bool
has_lease_id id db = any (λ r. text_eq r.lease_id id) db.leases

no_conflict :
    (e : ℕ) (r : LeaseRow) (rows : List LeaseRow)
    → Rising e rows
    → e < r.lease_epoch
    → any (λ s. text_eq s.lease_id r.lease_id) rows ≡ false
    → any (is_lease_conflict r) rows ≡ false
unfolding any is_lease_conflict
no_conflict e r [] h lt f = refl
no_conflict e r (s ∷ rows) (b, _, _, h) lt f = ground (arith, no_conflict e r rows h lt)

claim-inserts :
    (p : ClaimParams) (db : Tables)
    → IsAudited db
    → has_lease_id p.lease_id db ≡ false
    → (rows : List LeaseRow) × (insert_lease (claimed_lease p db.store.job) db.leases ≡ some rows)
unfolding insert_lease claimed_lease
claim-inserts p db c f =
    let r = claimed_lease p db.store.job in
    (db.leases ++ r ∷ [], rw (no_conflict (epoch_of db) r db.leases c.rising (omega arith) f) refl)

-- Who may claim the job: it is ready, every required tag is met by the attested ones, the claimant is
-- served, has an account, and is not involved in the rows that the job depends on.
pub record IsClaimable (p : ClaimParams) (db : Tables) (fleet : Fleet) : Type 0 where
  pub state : db.store.job.state ≡ ready
  pub capable : (req : Text) → Memᴰ req db.store.job.required_capabilities → Meets p.attested req
  pub served : IsServed fleet db.workers p.identity p.model_family p.worker_id
  pub account : HasAccount fleet p.model_family
  pub uninvolved : IsUninvolved p db fleet

is_ready_iff : (s : State) → (is_ready s ≡ true) ↔ (s ≡ ready)
unfolding is_ready
is_ready_iff s = ground arith

IsClaimable-guards :
    (p : ClaimParams) (db : Tables) (fleet : Fleet)
    → IsClaimable p db fleet
    → (may_claim p db fleet ≡ true)
      × (is_independent p db fleet ≡ true)
      × (select_account_id fleet p.model_family ≢ none)
unfolding may_claim
IsClaimable-guards p db fleet c =
    let required = db.store.job.required_capabilities in
    let capable = (capabilities_satisfy_iff p.attested required).1 c.capable in
    let served =
      (model_slot_gate_iff fleet db.workers p.identity p.model_family p.worker_id).1 c.served in
    (
      rw ((is_ready_iff db.store.job.state).1 c.state, capable, served) refl,
      (is_independent_iff p db fleet).1 c.uninvolved,
      select_account_id-none fleet p.model_family c.account,
    )

guards-IsClaimable :
    (p : ClaimParams) (db : Tables) (fleet : Fleet)
    → may_claim p db fleet ≡ true
    → is_independent p db fleet ≡ true
    → select_account_id fleet p.model_family ≢ none
    → IsClaimable p db fleet
unfolding may_claim
guards-IsClaimable p db fleet m n z =
    let required = db.store.job.required_capabilities in
    record {
      state = (is_ready_iff db.store.job.state).0 (ground arith);
      capable = (capabilities_satisfy_iff p.attested required).0 (ground arith);
      served =
          (model_slot_gate_iff fleet db.workers p.identity p.model_family p.worker_id).0
            (ground arith);
      account = select_account_id-some fleet p.model_family z;
      uninvolved = (is_independent_iff p db fleet).0 n;
    }

-- For a job whose lease audit is right, a claim with a fresh lease id commits exactly when the
-- claimant may claim the job: it is ready; every required tag is met by the attested ones; the
-- claimant is anonymous or of no family, or names no worker and is not registered, or has a free
-- slot under the id that it names or is registered with; it is of no family, or its family has no
-- account, or one of the family's accounts has room; and a code reviewer built no row that the job
-- names as its build, by identity or family, and a merger reviewed none that it names as its
-- review. There is a free slot under an id when fewer leases of the family are active than the id
-- advertises for it or, where it advertises none, when no worker has the id, or no lease of the
-- claimant is active, or fewer than the worker's maximum. The claim fails in no other way than as a
-- lost race.
pub claim_ready_job_iff :
    (p : ClaimParams) (db : Tables) (fleet : Fleet)
    → IsAudited db
    → has_lease_id p.lease_id db ≡ false
    → (((db' : Tables) × (l : Lease) × (claim_ready_job p db fleet ≡ committed (db', l)))
        ↔ IsClaimable p db fleet)
      × ((x : TxError) → claim_ready_job p db fleet ≡ rolled_back x → x ≡ lost_race)
unfolding claim_ready_job claim_with
claim_ready_job_iff p db fleet c f =
    let (rows, put) = claim-inserts p db c f in
    (
      (
        λ (db', l, h).
            let (account, _, m, n, _, _, _) = claim_ready_job-committed p db db' fleet l h in
            guards-IsClaimable p db fleet m n (λ z. absurd (ground arith)),
        λ can.
            let (m, n, z) = IsClaimable-guards p db fleet can in
            elim (Option-cases (select_account_id fleet p.model_family)) [
              | inl e ↦ absurd (z e)
              | inr (account, e) ↦ (
                apply_claim p db account rows,
                granted p db.store.job,
                rw (claim_ready_job, m, e, claim_with, n, put) refl,
              )
            ],
      ),
      λ x h. elim (Option-cases (select_account_id fleet p.model_family)) [
        | inl e ↦ ground arith
        | inr (account, e) ↦ ground arith
      ],
    )

taken_is_lost :
    (q p : ClaimParams) (db : Tables) (account : Text) (leases : List LeaseRow) (fleet : Fleet)
    → claim_ready_job q (apply_claim p db account leases) fleet ≡ rolled_back lost_race
unfolding claim_ready_job may_claim apply_claim claimed_row append is_ready
taken_is_lost q p db account leases fleet = refl

-- A claim is exclusive. After a claim that commits, the job has the epoch of the lease that was granted,
-- one more than before, and every further claim of the job is a lost race.
pub claim_ready_job_exclusive :
    (p q : ClaimParams) (db db' : Tables) (fleet fleet' : Fleet) (l : Lease)
    → claim_ready_job p db fleet ≡ committed (db', l)
    → (l.epoch ≡ epoch_of db + 1)
      × (epoch_of db' ≡ l.epoch)
      × (claim_ready_job q db' fleet' ≡ rolled_back lost_race)
unfolding granted apply_claim claimed_row append
claim_ready_job_exclusive p q db db' fleet fleet' l h =
    let (account, leases, _, _, _, e, g) = claim_ready_job-committed p db db' fleet l h in
    (
      ap (λ x. x.epoch) g,
      ap epoch_of e ∙ sym (ap (λ x. x.epoch) g),
      subst (λ d. claim_ready_job q d fleet' ≡ rolled_back lost_race) (sym e)
          (taken_is_lost q p db account leases fleet'),
    )
