-- ===== src/Store/Lifecycle/Revocations.antt =====
-- `applyRevokeTx` of internal/store/liveness.go against the fold of the event that it appends.
use flowbee.Base.{add_zero, ℕ, ◌+◌, ◌≡◌, refl, sym, ◌∙◌, ap, inl, inr, Bool-cases, true, false}
use flowbee.Base.Text.{Text}
use flowbee.Job.State.{State, resolving_conflict, conflict_resolver}
use flowbee.Job.Record.{Job}
use flowbee.Ledger.Event.{EventKind, zero_payload}
use flowbee.Ledger.Event.EventKind.{lease_revoked, stall_escalated, agent_exited, fast_cancelled}
use flowbee.Ledger.Fold.{apply_event, fold_kind}
use flowbee.Ledger.Cases.Shared.{is_ready, set_if, clear_lease}
use flowbee.Ledger.Cases.Lease.{
  lease_revoked_case, stall_escalated_case, agent_exited_case, fast_cancelled_case, rearm_role,
}
use flowbee.Ledger.Fold.Invariants.{HasRole}
use flowbee.Engine.Types.{Transition, move}
use flowbee.Store.Row.{logged}
use flowbee.Store.Lifecycle.Rounds.{Revocable, rearmed, apply_event-rearmed}
use flowbee.Store.Row.Replay.{ReadsLogged}
use flowbee.Store.Revoke.{revoked_event, revoked_row}

-- A transition that ends a lease, as the engine makes it.
abbrev pub revocation : EventKind → State → State → ℕ → ℕ → Text → Transition
revocation kind from to attempts stalls why = record (move from to kind) {
  attempts_delta = attempts;
  stall_revocations_delta = stalls;
  bump_epoch = true;
  revoke_reason = why;
}

-- The four ways a lease is revoked, with the counters that each one moves.
pub data IsRevocation (from to : State) : Transition → Type 0 where
  revoked :
      (attempts stalls : ℕ) (why : Text)
      → IsRevocation from to (revocation lease_revoked from to attempts stalls why)
  escalated :
      (stalls : ℕ) (why : Text)
      → IsRevocation from to (revocation stall_escalated from to 0 stalls why)
  exited : (why : Text) → IsRevocation from to (revocation agent_exited from to 0 0 why)
  cancelled :
      (attempts : ℕ) (why : Text)
      → IsRevocation from to (revocation fast_cancelled from to attempts 0 why)

-- The row after the revocation has what the fold of its event has.
abbrev pub Agrees : Job → Transition → ℕ → ℕ → Text → Type 0
Agrees j t epoch now reason =
    logged (revoked_row j t epoch now reason)
    ≡ logged (apply_event j (revoked_event j t epoch now reason))

rearm_role-waits :
    (j : Job) (t : Transition) (epoch now : ℕ) (reason : Text)
    → is_ready t.to ≡ false
    → rearm_role (revoked_event j t epoch now reason) j.role ≡ j.role
unfolding rearm_role revoked_event
rearm_role-waits j t epoch now reason h = rw h refl

is_ready-resolving : (to : State) → to ≡ resolving_conflict → is_ready to ≡ false
unfolding is_ready
is_ready-resolving to at = rw at refl

revoked_row-rearmed :
    (j : Job) (t : Transition) (epoch now : ℕ) (reason : Text)
    → logged (revoked_row j t epoch now reason)
      ≡ logged
          (record (rearmed t.to
            (record (lease_revoked_case (revoked_event j t epoch now reason) j) {
              escalation_reason = set_if reason j.escalation_reason;
            })) { job_seq = j.job_seq + 1 })
unfolding revoked_row revoked_event lease_revoked_case clear_lease zero_payload logged
revoked_row-rearmed j t epoch now reason = elim (Bool-cases (is_ready t.to)) [
  | inl h ↦ rw h refl
  | inr h ↦ rw (rearm_role-waits j t epoch now reason h, h) refl
]

module _ (j : Job) (from to : State) (epoch now : ℕ) (reason : Text)
    (ok : Revocable j to reason) where
  revoked-Agrees :
      (a s : ℕ) (why : Text) → Agrees j (revocation lease_revoked from to a s why) epoch now reason
  unfolding revoked_row revoked_event fold_kind lease_revoked_case clear_lease zero_payload logged
      move
  revoked-Agrees a s why =
      let t = revocation lease_revoked from to a s why in
      let e = revoked_event j t epoch now reason in
      let (k, spec, n, o, q, w) = ok in
      let waits = rearm_role-waits j t epoch now reason in
      let role_kept : to ≡ resolving_conflict → HasRole (lease_revoked_case e j) conflict_resolver =
        λ at. let (r, c) = w at in (waits (is_ready-resolving to at) ∙ r, c) in
      let folded =
        apply_event-rearmed j (lease_revoked_case e j) e refl refl (k, spec, n, o, q, role_kept) in
      revoked_row-rearmed j t epoch now reason ∙ ap logged (sym folded)

  escalated-Agrees :
      (s : ℕ) (why : Text) → Agrees j (revocation stall_escalated from to 0 s why) epoch now reason
  unfolding revoked_row revoked_event fold_kind stall_escalated_case clear_lease zero_payload logged
      move
  escalated-Agrees s why =
      let e = revoked_event j (revocation stall_escalated from to 0 s why) epoch now reason in
      rw (add_zero j.attempts)
        (ap logged (sym (apply_event-rearmed j (stall_escalated_case e j) e refl refl ok)))

  exited-Agrees : (why : Text) → Agrees j (revocation agent_exited from to 0 0 why) epoch now reason
  unfolding revoked_row revoked_event fold_kind agent_exited_case clear_lease zero_payload logged
      move
  exited-Agrees why =
      let e = revoked_event j (revocation agent_exited from to 0 0 why) epoch now reason in
      rw (add_zero j.attempts, add_zero j.stall_revocations)
        (ap logged (sym (apply_event-rearmed j (agent_exited_case e j) e refl refl ok)))

  cancelled-Agrees :
      (a : ℕ) (why : Text) → Agrees j (revocation fast_cancelled from to a 0 why) epoch now reason
  unfolding revoked_row revoked_event fold_kind fast_cancelled_case clear_lease zero_payload logged
      move
  cancelled-Agrees a why =
      let e = revoked_event j (revocation fast_cancelled from to a 0 why) epoch now reason in
      rw (add_zero j.stall_revocations)
        (ap logged (sym (apply_event-rearmed j (fast_cancelled_case e j) e refl refl ok)))

  -- However a lease is revoked, the row is updated the way the event folds.
  pub IsRevocation-Agrees : (t : Transition) → IsRevocation from to t → Agrees j t epoch now reason
  IsRevocation-Agrees t (revoked a s why) = revoked-Agrees a s why
  IsRevocation-Agrees t (escalated s why) = escalated-Agrees s why
  IsRevocation-Agrees t (exited why) = exited-Agrees why
  IsRevocation-Agrees t (cancelled a why) = cancelled-Agrees a why

-- And the case of the event's kind reads no other column.
pub revoked_event-ReadsLogged :
    (j : Job) (from to : State) (t : Transition) (epoch now : ℕ) (reason : Text)
    → IsRevocation from to t
    → ReadsLogged (fold_kind t.kind (revoked_event j t epoch now reason))
unfolding fold_kind lease_revoked_case stall_escalated_case agent_exited_case fast_cancelled_case
    clear_lease rearm_role logged move revoked_event
revoked_event-ReadsLogged j from to t epoch now reason (revoked a s why) k = refl
revoked_event-ReadsLogged j from to t epoch now reason (escalated s why) k = refl
revoked_event-ReadsLogged j from to t epoch now reason (exited why) k = refl
revoked_event-ReadsLogged j from to t epoch now reason (cancelled a why) k = refl
