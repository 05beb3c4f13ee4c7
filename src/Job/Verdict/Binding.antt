-- ===== src/Job/Verdict/Binding.antt =====
-- What the integrity hash of internal/job/verdict.go binds a verdict and a sign-off to.
use mathlib.Core.List.{append_assoc, append_cancel_left}
use flowbee.Base.{ℕ, ◌≡◌, refl, sym, ◌∙◌, ◌↔◌, true, ◌∷◌, ◌++◌, arith}
use flowbee.Base.Text.{Text, bytes, text_eq_iff}
use flowbee.Base.Decimal.{decimal, field_split, line_split, hex_injective}
use flowbee.Job.Verdict.{
  Verdict, SpecSignoff, preimage, signoff_preimage, compute_hash, mint_verdict, verify,
  compute_signoff_hash, mint_spec_signoff, verify_signoff, reconciled, minted, version_text,
  verdict_fields, signoff_fields,
}

-- The five fields that the hash covers.
abbrev pub SameFacts : Verdict → Verdict → Type 0
SameFacts v w =
    (v.value ≡ w.value)
    × (v.disposition ≡ w.disposition)
    × (v.head_sha ≡ w.head_sha)
    × (v.base_sha ≡ w.base_sha)
    × (v.provenance ≡ w.provenance)

-- The encoding under the hash is unambiguous: verdicts that encode alike agree on all five fields.
pub preimage_injective : (v w : Verdict) → preimage v ≡ preimage w → SameFacts v w
unfolding preimage verdict_fields
preimage_injective v w e =
    let s1 = field_split v.value w.value _ _ (append_cancel_left _ _ _ e) in
    let s2 = field_split v.disposition w.disposition _ _ s1.1 in
    let s3 = field_split v.head_sha w.head_sha _ _ s2.1 in
    let s4 = field_split v.base_sha w.base_sha _ _ s3.1 in
    let s5 = field_split v.provenance w.provenance _ _ s4.1 in (s1.0, s2.0, s3.0, s4.0, s5.0)

version_append :
    (m : ℕ) (t : Text) → version_text m ++ t ≡ bytes "version:" ++ (decimal m ++ (10 ∷ t))
unfolding version_text
version_append m t = simp append_assoc

version_split :
    (m n : ℕ) (t t' : Text) → version_text m ++ t ≡ version_text n ++ t' → (m ≡ n) × (t ≡ t')
version_split m n t t' e =
    line_split m n t t'
      (append_cancel_left _ _ _ (sym (version_append m t) ∙ e ∙ version_append n t'))

abbrev pub SameSignoffFacts : SpecSignoff → SpecSignoff → Type 0
SameSignoffFacts v w =
    (v.value ≡ w.value)
    × (v.spec_hash ≡ w.spec_hash)
    × (v.spec_version ≡ w.spec_version)
    × (v.reviewer_lens ≡ w.reviewer_lens)
    × (v.provenance ≡ w.provenance)

pub signoff_preimage_injective :
    (v w : SpecSignoff) → signoff_preimage v ≡ signoff_preimage w → SameSignoffFacts v w
unfolding signoff_preimage signoff_fields
signoff_preimage_injective v w e =
    let s1 = field_split v.value w.value _ _ (append_cancel_left _ _ _ e) in
    let s2 = field_split v.spec_hash w.spec_hash _ _ s1.1 in
    let s3 = version_split v.spec_version w.spec_version _ _ s2.1 in
    let s4 = field_split v.reviewer_lens w.reviewer_lens _ _ s3.1 in
    let s5 = field_split v.provenance w.provenance _ _ s4.1 in (s1.0, s2.0, s3.0, s4.0, s5.0)

-- What `Verify` checks.
pub verify_iff :
    (sha256 : Text → Text) (v : Verdict) (head base : Text)
    → (verify sha256 v head base ≡ true) ↔ (
        (v.tamper_evident ≡ true)
        × (v.provenance ≡ reconciled)
        × (v.integrity_hash ≡ compute_hash sha256 v)
        × (v.head_sha ≡ head)
        × (v.base_sha ≡ base))
unfolding verify
verify_iff sha256 v head base = ground (
  arith,
  text_eq_iff v.provenance reconciled,
  text_eq_iff v.integrity_hash (compute_hash sha256 v),
  text_eq_iff v.head_sha head,
  text_eq_iff v.base_sha base,
)

pub verify_signoff_iff :
    (sha256 : Text → Text) (s : SpecSignoff) (current : Text)
    → (verify_signoff sha256 s current ≡ true) ↔ (
        (s.tamper_evident ≡ true)
        × (s.provenance ≡ minted)
        × (s.integrity_hash ≡ compute_signoff_hash sha256 s)
        × (s.spec_hash ≡ current))
unfolding verify_signoff
verify_signoff_iff sha256 s current = ground (
  arith,
  text_eq_iff s.provenance minted,
  text_eq_iff s.integrity_hash (compute_signoff_hash sha256 s),
  text_eq_iff s.spec_hash current,
)

module _ (sha256 : Text → Text) where
  -- The hash does not cover itself.
  pub compute_hash-mint :
      (value disp head base : Text)
      → (mint_verdict sha256 value disp head base).integrity_hash
        ≡ compute_hash sha256 (mint_verdict sha256 value disp head base)
  unfolding mint_verdict compute_hash preimage verdict_fields
  compute_hash-mint value disp head base = refl

  -- A freshly minted verdict verifies at the pair it was minted for and at no other.
  pub verify-mint_verdict :
      (value disp head base head' base' : Text)
      → (verify sha256 (mint_verdict sha256 value disp head base) head' base' ≡ true)
        ↔ ((head ≡ head') × (base ≡ base'))
  unfolding mint_verdict
  verify-mint_verdict value disp head base head' base' =
      let v : Verdict = mint_verdict sha256 value disp head base in
      ground (arith, verify_iff sha256 v head' base', compute_hash-mint value disp head base)

  signoff_hash-mint :
      (hash : Text) (version : ℕ) (lens : Text)
      → (mint_spec_signoff sha256 hash version lens).integrity_hash
        ≡ compute_signoff_hash sha256 (mint_spec_signoff sha256 hash version lens)
  unfolding mint_spec_signoff compute_signoff_hash signoff_preimage signoff_fields
  signoff_hash-mint hash version lens = refl

  -- A freshly minted sign-off verifies at the spec hash it was minted for and at no other.
  pub verify-mint_spec_signoff :
      (hash : Text) (version : ℕ) (lens current : Text)
      → (verify_signoff sha256 (mint_spec_signoff sha256 hash version lens) current ≡ true)
        ↔ (hash ≡ current)
  unfolding mint_spec_signoff
  verify-mint_spec_signoff hash version lens current = ground (
    arith,
    verify_signoff_iff sha256 (mint_spec_signoff sha256 hash version lens) current,
    signoff_hash-mint hash version lens,
  )

  hash_injective :
      (v m : Verdict)
      → compute_hash sha256 v ≡ compute_hash sha256 m
      → sha256 (preimage v) ≡ sha256 (preimage m)
  unfolding compute_hash
  hash_injective v m e = hex_injective _ _ (append_cancel_left _ _ _ e)

  -- Tamper evidence. Take a verdict that verifies at a SHA pair and carries the integrity hash of a
  -- second one whose hash is its own. Unless sha256 collides on the two encodings, the two agree on
  -- value, disposition, both SHAs and provenance, and the pair is the second verdict's own.
  pub verify_tampered :
      (v m : Verdict) (head base : Text)
      → (sha256 (preimage v) ≡ sha256 (preimage m) → preimage v ≡ preimage m)
      → m.integrity_hash ≡ compute_hash sha256 m
      → v.integrity_hash ≡ m.integrity_hash
      → verify sha256 v head base ≡ true
      → SameFacts v m × (m.head_sha ≡ head) × (m.base_sha ≡ base)
  verify_tampered v m head base free own copied ok =
      let (_, _, hash, h, b) = (verify_iff sha256 v head base).0 ok in
      let same = preimage_injective v m (free (hash_injective v m (sym hash ∙ copied ∙ own))) in
      (same, sym same.2 ∙ h, sym same.3 ∙ b)
