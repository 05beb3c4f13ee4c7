-- ===== src/Ledger/Cases/Board.antt =====
-- The cases of `Fold` that create, adopt, backlog and promote a job, and that stamp numbers.
use flowbee.Base.{ℕ, ◌==◌, if◌then◌else◌}
use flowbee.Job.State.{role_caps, default_max_attempts, default_max_bounces}
use flowbee.Job.Record.{Job}
use flowbee.Ledger.Event.{Event}
use flowbee.Ledger.Cases.Shared.{is_ready, set_if}

unfoldable pub job_created_case : Event → Job → Job
unfolding is_ready
job_created_case e j = record j {
  id = e.job_id;
  kind = e.payload.kind;
  flow = e.payload.flow;
  stage = e.payload.stage;
  role = e.payload.role;
  base_sha = e.payload.base_sha;
  priority = e.payload.priority;
  blocked_by = e.payload.blocked_by;
  required_capabilities = e.payload.required_capabilities;
  task_text = e.payload.task_text;
  spec_text = e.payload.spec_text;
  acceptance_criteria = e.payload.acceptance_criteria;
  spec_content_hash = e.payload.spec_content_hash;
  spec_version = e.payload.spec_version;
  state = e.to_state;
  enqueued_at = if is_ready e.to_state then e.created_at else j.enqueued_at;
  max_attempts = default_max_attempts;
  max_bounces = default_max_bounces;
}

-- `if n != 0 { field = n }`
unfoldable pub set_number : ℕ → ℕ → ℕ
set_number new old = if new == 0 then old else new

unfoldable pub pr_opened_case : Event → Job → Job
unfolding set_if
pr_opened_case e j = record j {
  pr_number = e.payload.pr_number;
  head_sha = set_if e.payload.head_sha j.head_sha;
}

unfoldable pub adopted_case : Event → Job → Job
unfolding set_number
adopted_case e j = record j {
  state = e.to_state;
  pr_number = set_number e.payload.pr_number j.pr_number;
  issue_num = set_number e.payload.issue_number j.issue_num;
}

unfoldable pub backlogged_case : Event → Job → Job
unfolding set_number
backlogged_case e j = record j {
  state = e.to_state;
  kind = e.payload.kind;
  flow = e.payload.flow;
  stage = e.payload.stage;
  role = e.payload.role;
  required_capabilities = role_caps e.payload.role;
  priority = e.payload.priority;
  max_attempts = default_max_attempts;
  max_bounces = default_max_bounces;
  task_text = e.payload.task_text;
  spec_text = e.payload.spec_text;
  acceptance_criteria = e.payload.acceptance_criteria;
  issue_num = set_number e.payload.issue_number j.issue_num;
}

unfoldable pub promoted_case : Event → Job → Job
unfolding is_ready
promoted_case e j = record j {
  state = e.to_state;
  stage = e.payload.stage;
  role = e.payload.role;
  enqueued_at = if is_ready e.to_state then e.created_at else j.enqueued_at;
}

unfoldable pub issue_adopted_case : Event → Job → Job
issue_adopted_case e j = record j {
  state = e.to_state;
  stage = e.payload.stage;
  role = e.payload.role;
}
