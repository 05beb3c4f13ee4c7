-- ===== src/Job/SpecGate/Decisions.antt =====
-- What the spec-review gate of internal/job/verdict.go signs off.
use flowbee.Base.{◌≡◌, ◌≢◌, refl, ◌⊎◌, ◌↔◌, true, false, [], none, some, arith}
use flowbee.Base.Text.{Text, bytes, text_eq, text_eq_iff, is_empty_iff}
use flowbee.Job.Transition.{spec_amended}
use flowbee.Job.Verdict.{
  SpecSignoff, verify_signoff, signed_off_value, amended_value, needs_design_value,
}
use flowbee.Job.Verdict.Binding.{verify-mint_spec_signoff}
use flowbee.Job.SpecGate.{
  SpecGateInputs, spec_outcome, is_amendment, meets_conjunction, same_lens, spec_bounce_arm,
  amend_arm, sign_off_arm, evaluate_spec_gate,
}

-- The hash that a sign-off of this claim may bind to: the amended one for an amendment, else the
-- one that the reviewer judged.
abbrev pub signed_hash : SpecGateInputs → Text
signed_hash g = elim (is_amendment g) [ true ↦ g.amended_hash | false ↦ g.claim_binds_to ]

signed_off_ne :
    (text_eq signed_off_value needs_design_value ≡ false)
    × (text_eq amended_value needs_design_value ≡ false)
    × (text_eq signed_off_value amended_value ≡ false)
unfolding text_eq bytes
signed_off_ne = (refl, refl, refl)

module _ (sha256 : Text → Text) where
  -- A sign-off is minted exactly when the claim binds to the current content hash, the author has no
  -- lens or the reviewer's differs from it, and the claim is either `amended` with a hash that is
  -- present and new, or `signed_off` and meets both style and requirements.
  pub evaluate_spec_gate-signs :
      (g : SpecGateInputs)
      → ((evaluate_spec_gate sha256 g).signoff ≢ none) ↔ (
          (g.claim_binds_to ≡ g.current_spec_hash)
          × ((g.author_lens ≡ []) ⊎ (g.reviewer_lens ≢ g.author_lens))
          × (((g.claim ≡ amended_value)
                × (g.amended_hash ≢ [])
                × (g.amended_hash ≢ g.current_spec_hash))
              ⊎ ((g.claim ≡ signed_off_value)
                  × (g.meets_style ≡ true)
                  × (g.meets_requirements ≡ true))))
  unfolding evaluate_spec_gate spec_outcome spec_bounce_arm amend_arm sign_off_arm is_amendment
      meets_conjunction same_lens
  evaluate_spec_gate-signs g = ground (
    arith,
    text_eq_iff g.claim_binds_to g.current_spec_hash,
    text_eq_iff g.reviewer_lens g.author_lens,
    text_eq_iff g.amended_hash g.current_spec_hash,
    text_eq_iff g.claim amended_value,
    text_eq_iff g.claim signed_off_value,
    is_empty_iff g.author_lens,
    is_empty_iff g.amended_hash,
    signed_off_ne,
  )

  -- The minted sign-off verifies at the amended hash after an amendment and at the current hash
  -- otherwise, and at no other hash; the trigger tells which.
  pub evaluate_spec_gate-signoff :
      (g : SpecGateInputs) (s : SpecSignoff) (current : Text)
      → (evaluate_spec_gate sha256 g).signoff ≡ some s
      → ((verify_signoff sha256 s current ≡ true) ↔ (signed_hash g ≡ current))
        × (((evaluate_spec_gate sha256 g).trigger ≡ spec_amended) ↔ (is_amendment g ≡ true))
  unfolding evaluate_spec_gate spec_outcome spec_bounce_arm amend_arm sign_off_arm
  evaluate_spec_gate-signoff g s current h = ground (
    arith,
    text_eq_iff g.claim_binds_to g.current_spec_hash,
    verify-mint_spec_signoff sha256 g.amended_hash g.amended_version g.reviewer_lens current,
    verify-mint_spec_signoff sha256 g.current_spec_hash g.spec_version g.reviewer_lens current,
  )
