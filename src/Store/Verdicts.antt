-- ===== src/Store/Verdicts.antt =====
-- internal/store/flow.go: `ReviewResult`, which records a reviewer's claim and applies what the gate makes
-- of the reconciled facts.
use flowbee.Base.{
  ℕ, ◌+◌, ◌++◌, ◌==◌, leb, Bool, true, false, not, ◌&&◌, ◌||◌, if◌then◌else◌, List, [], ◌∷◌, Option,
  none, some,
}
use flowbee.Base.Text.{Text, bytes, is_empty, text_eq}
use flowbee.Content.{Result}
use flowbee.Job.State.{
  State, state_text, ready, review_pending, needs_human, eng_worker, code_reviewer, role_caps,
  escalation_reviewer_rejections,
}
use flowbee.Job.Verdict.{Verdict, Policy, DomainBFacts, changes_requested_value}
use flowbee.Job.Gate.{max_reviewer_rejections}
use flowbee.Job.Record.{Job}
use flowbee.Ledger.Event.{Event, EventKind, zero_payload}
use flowbee.Ledger.Event.EventKind.{verdict_claim, review_approved}
use flowbee.Ledger.Cases.Shared.{set_if, stage_build}
use flowbee.Engine.{decide}
use flowbee.Engine.Types.{EngineState, EngineEvent, ReviewClaim, Transition}
use flowbee.Store.Row.{JobStore}
use flowbee.Store.Tables.{
  Tables, BuildColumns, Response, stale_epoch, Tx, rolled_back, committed, close_lease,
}
use flowbee.Store.Result.{cached_response, final_state, last_seq, moved_on_row, remember}
use flowbee.Store.Panel.{prior_approvals, reviewer_rejections}

pub record ReviewResultParams : Type 0 where
  pub epoch : ℕ
  pub claim : Text
  pub disposition : Text
  pub idempotency_key : Text
  pub notes : Text
  pub reviewer_head : Text
  pub now : ℕ

-- What the transaction reads beside the tables: the policy, the reconciled facts, the result of the
-- content gate on the stored diff, the job's rows of `epoch_ci`, and whether the job was adopted.
pub record ReviewInputs : Type 0 where
  pub policy : Policy
  pub facts : DomainBFacts
  pub check : Result
  pub epoch_ci : List (ℕ × Text)
  pub adopted : Bool

-- `SELECT ci_state FROM epoch_ci WHERE job_id = ? AND epoch = ?`
unfoldable pub ci_state_at : ℕ → List (ℕ × Text) → Option Text
ci_state_at epoch [] = none
ci_state_at epoch ((e, s) ∷ rest) =
    let later = ci_state_at epoch rest in if e == epoch then some s else later

-- `epochGatedCITx` and the conjunction with its verdict.
unfoldable pub epoch_gate : ℕ → List (ℕ × Text) → Bool → Bool
epoch_gate build_epoch [] green = green
epoch_gate build_epoch (row ∷ rows) green = green && elim (ci_state_at build_epoch (row ∷ rows)) [
  | none ↦ false
  | some s ↦ text_eq s (bytes "success")
]

-- The job knows a SHA of its own, and the facts have another one.
unfoldable pub facts_moved : Job → DomainBFacts → Bool
facts_moved j f =
    (not (is_empty j.head_sha) && not (text_eq f.head_sha j.head_sha))
    || (not (is_empty j.base_sha) && not (text_eq f.base_sha j.base_sha))

unfoldable pub judged_facts : Job → ReviewInputs → DomainBFacts
judged_facts j i = record (i.facts) {
  ci_green =
      epoch_gate j.build_epoch i.epoch_ci
        (if facts_moved j i.facts then false else i.facts.ci_green);
}

unfoldable pub prior_rejections : JobStore → ℕ
prior_rejections st =
    if is_empty st.job.bound_identity
    then 0
    else reviewer_rejections st.job.bound_identity st.events

unfoldable pub review_snapshot : ReviewResultParams → ReviewInputs → Job → EngineState
review_snapshot p i j = record {
  job = j;
  now = p.now;
  epoch = j.lease_epoch;
  github = judged_facts j i;
  policy = i.policy;
  spec = record { current_hash = []; version = 0; author_lens = []; reviewer_lens = [] };
  content = some i.check;
}

unfoldable pub review_claim_of : ReviewResultParams → JobStore → ReviewClaim
review_claim_of p st = record {
  epoch = p.epoch;
  value = p.claim;
  disposition = p.disposition;
  reviewer_prior_rejections = prior_rejections st;
  prior_approvals = prior_approvals st.events;
}

unfoldable pub verdict_claim_event : ReviewResultParams → Job → Event
verdict_claim_event p j = record {
  job_id = j.id;
  job_seq = j.job_seq + 1;
  kind = verdict_claim;
  from_state = j.state;
  to_state = j.state;
  lease_epoch = j.lease_epoch;
  actor = j.bound_identity;
  created_at = p.now;
  payload = record zero_payload { verdict_claim = p.claim; disposition = p.disposition };
}

-- The cap on one reviewer's rejections is what parks the job.
unfoldable pub is_capped : ReviewResultParams → JobStore → Bool
is_capped p st =
    text_eq p.claim changes_requested_value && leb max_reviewer_rejections (prior_rejections st + 1)

is_needs_human : State → Bool
is_needs_human needs_human = true
is_needs_human _ = false

is_review_approved : EventKind → Bool
is_review_approved review_approved = true
is_review_approved _ = false

unfoldable pub review_event : ReviewResultParams → JobStore → ℕ → Transition → Event
unfolding is_needs_human is_review_approved
review_event p st seq t = record {
  job_id = st.job.id;
  job_seq = seq;
  kind = t.kind;
  from_state = t.from;
  to_state = t.to;
  lease_epoch = st.job.lease_epoch;
  actor = bytes "system";
  created_at = p.now;
  payload = record zero_payload {
    bounces_delta = t.bounces_delta;
    verdict = t.verdict;
    escalation_reason =
        if is_needs_human t.to && is_capped p st then escalation_reviewer_rejections else [];
    head_sha = if is_review_approved t.kind then p.reviewer_head else [];
    review_notes = if text_eq p.claim changes_requested_value then p.notes else [];
  };
}

unfoldable pub review_events : ReviewResultParams → JobStore → ℕ → List Transition → List Event
review_events p st seq [] = []
review_events p st seq (t ∷ ts) = review_event p st (seq + 1) t ∷ review_events p st (seq + 1) ts

unfoldable pub bounces_of : List Transition → ℕ
bounces_of [] = 0
bounces_of (t ∷ ts) = t.bounces_delta + bounces_of ts

-- `if t.Verdict != nil { minted = t.Verdict }`
unfoldable pub minted_of : Option Verdict → List Transition → Option Verdict
minted_of v [] = v
minted_of v (t ∷ ts) = minted_of (elim t.verdict [ none ↦ v | some w ↦ some w ]) ts

-- The head of the minted verdict, if it has one.
unfoldable pub minted_head : Option Verdict → Text → Text
minted_head none old = old
minted_head (some v) old = set_if v.head_sha old

-- The update of the row for each final state.
unfoldable pub reviewed_row : ReviewResultParams → JobStore → List Transition → ℕ → State → Job
unfolding is_needs_human
reviewed_row p st ts seq ready = record (moved_on_row st.job ready seq) {
  role = eng_worker;
  stage = stage_build;
  required_capabilities = role_caps eng_worker;
  bounces = st.job.bounces + bounces_of ts;
  enqueued_at = p.now;
  last_review_notes = set_if p.notes st.job.last_review_notes;
}
reviewed_row p st ts seq review_pending = record (moved_on_row st.job review_pending seq) {
  role = eng_worker;
  required_capabilities = role_caps code_reviewer;
  head_sha = set_if p.reviewer_head st.job.head_sha;
}
reviewed_row p st ts seq final = record (moved_on_row st.job final seq) {
  verdict = minted_of none ts;
  head_sha = minted_head (minted_of none ts) st.job.head_sha;
  bounces = st.job.bounces + bounces_of ts;
  escalation_reason =
      if is_needs_human final && is_capped p st
      then escalation_reviewer_rejections
      else st.job.escalation_reason;
}

-- A bounce blanks the diff and the reservation; an adopted job keeps its diff.
unfoldable pub bounced_columns : Bool → State → BuildColumns → BuildColumns
bounced_columns adopted ready b = record b {
  patch_diff = if adopted then b.patch_diff else [];
  declared_blast_radius = if adopted then b.declared_blast_radius else [];
  reservation_paths = [];
  reservation_wide = false;
}
bounced_columns adopted final b = b

unfoldable pub review_response : List Transition → State → Response
review_response ts final = record {
  accepted = true;
  job_state = state_text final;
  verdict = elim (minted_of none ts) [ none ↦ [] | some v ↦ v.value ];
  minted = elim (minted_of none ts) [ none ↦ false | some v ↦ true ];
}

unfoldable pub review_writes :
    ReviewResultParams → ReviewInputs → Tables → List Transition → State → Tables
review_writes p i db ts final =
    let st = db.store in
    let seq = st.job.job_seq + 1 in
    record db {
      store = record {
        job = reviewed_row p st ts (last_seq seq ts) final;
        events = st.events ++ verdict_claim_event p st.job ∷ review_events p st seq ts;
      };
      build = bounced_columns i.adopted final db.build;
      live = record (db.live) { lease_hb_due = none };
      leases = close_lease st.job.lease_epoch (bytes "completed") db.leases;
      responses = remember p.idempotency_key (review_response ts final) db.responses;
    }

unfoldable pub fresh_review :
    (Text → Text) → ReviewResultParams → ReviewInputs → Tables → Tx (Tables × Response)
fresh_review sha256 p i db =
    let st = db.store in
    let dec =
      decide sha256 (review_snapshot p i st.job)
        (EngineEvent.review_claim (review_claim_of p st)) in
    elim dec.reject [
      | some reason ↦ rolled_back stale_epoch
      | none ↦
          let final = final_state st.job.state dec.transitions in
          committed
            (review_writes p i db dec.transitions final, review_response dec.transitions final)
    ]

unfoldable pub review_result :
    (Text → Text) → ReviewResultParams → ReviewInputs → Tables → Tx (Tables × Response)
review_result sha256 p i db =
    if is_empty p.idempotency_key
    then fresh_review sha256 p i db
    else elim (cached_response p.idempotency_key db.responses) [
      | some r ↦ committed (db, r)
      | none ↦ fresh_review sha256 p i db
    ]
