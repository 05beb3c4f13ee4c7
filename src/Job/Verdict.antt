-- ===== src/Job/Verdict.antt =====
-- internal/job/verdict.go: the verdict and the spec sign-off, their integrity hash, the reconciled
-- facts and the policy. `sha256` is the standard library's digest, a parameter of the model.
pub mod Binding
use flowbee.Base.{
  ℕ, suc, ◌+◌, ◌≡◌, Bool, true, false, not, ◌&&◌, ◌||◌, if◌then◌else◌, List, [], ◌∷◌, ◌++◌, Option,
  none, some, leb, ltb,
}
use flowbee.Base.Text.{Text, bytes, text_eq, is_empty}
use flowbee.Base.Int.{ℤ, pos, ltb_ℤ}
use flowbee.Base.Decimal.{decimal, field_text, hex}
use flowbee.Content.{Result, eligible}

-- `VerdictValue` and `Disposition` are Go strings that a worker's claim may fill freely.
abbrev pub approved_value : Text
approved_value = bytes "approved"

abbrev pub changes_requested_value : Text
changes_requested_value = bytes "changes_requested"

abbrev pub signed_off_value : Text
signed_off_value = bytes "signed_off"

abbrev pub amended_value : Text
amended_value = bytes "amended"

abbrev pub needs_design_value : Text
needs_design_value = bytes "needs_design"

abbrev pub self_merge_disposition : Text
self_merge_disposition = bytes "self_merge"

abbrev pub handoff_disposition : Text
handoff_disposition = bytes "handoff"

abbrev pub reconciled : Text
reconciled = bytes "reconciled"

abbrev pub minted : Text
minted = bytes "minted"

pub record Verdict : Type 0 where
  pub value : Text
  pub disposition : Text
  pub head_sha : Text
  pub base_sha : Text
  pub provenance : Text
  pub tamper_evident : Bool
  pub integrity_hash : Text

-- What `computeHash` writes into the digest: a domain line, then each field with its length.
verdict_fields : Verdict → Text
verdict_fields v =
    field_text v.value
    ++ (field_text v.disposition
        ++ (field_text v.head_sha ++ (field_text v.base_sha ++ (field_text v.provenance ++ []))))

pub preimage : Verdict → Text
preimage v = (bytes "flowbee-verdict-v1" ++ (10 ∷ [])) ++ verdict_fields v

pub record SpecSignoff : Type 0 where
  pub value : Text
  pub spec_hash : Text
  pub spec_version : ℕ
  pub reviewer_lens : Text
  pub provenance : Text
  pub tamper_evident : Bool
  pub integrity_hash : Text

-- `fmt.Fprintf(h, "version:%d\n", s.SpecVersion)`
version_text : ℕ → Text
version_text n = bytes "version:" ++ (decimal n ++ (10 ∷ []))

signoff_fields : SpecSignoff → Text
unfolding version_text
signoff_fields s =
    field_text s.value
    ++ (field_text s.spec_hash
        ++ (version_text s.spec_version
            ++ (field_text s.reviewer_lens ++ (field_text s.provenance ++ []))))

pub signoff_preimage : SpecSignoff → Text
signoff_preimage s = (bytes "flowbee-spec-signoff-v1" ++ (10 ∷ [])) ++ signoff_fields s

module _ (sha256 : Text → Text) where
  pub compute_hash : Verdict → Text
  compute_hash v = bytes "sha256:" ++ hex (sha256 (preimage v))

  unfoldable pub mint_verdict : Text → Text → Text → Text → Verdict
  mint_verdict value disp head base = record v { integrity_hash = compute_hash v }
    where
      v : Verdict
      v = record {
        value = value;
        disposition = disp;
        head_sha = head;
        base_sha = base;
        provenance = reconciled;
        tamper_evident = true;
        integrity_hash = [];
      }

  unfoldable pub verify : Verdict → Text → Text → Bool
  verify v head base =
      if not v.tamper_evident || not (text_eq v.provenance reconciled)
      then false
      else if not (text_eq v.integrity_hash (compute_hash v))
      then false
      else text_eq v.head_sha head && text_eq v.base_sha base

  pub compute_signoff_hash : SpecSignoff → Text
  compute_signoff_hash s = bytes "sha256:" ++ hex (sha256 (signoff_preimage s))

  unfoldable pub mint_spec_signoff : Text → ℕ → Text → SpecSignoff
  mint_spec_signoff hash version lens = record s { integrity_hash = compute_signoff_hash s }
    where
      s : SpecSignoff
      s = record {
        value = signed_off_value;
        spec_hash = hash;
        spec_version = version;
        reviewer_lens = lens;
        provenance = minted;
        tamper_evident = true;
        integrity_hash = [];
      }

  unfoldable pub verify_signoff : SpecSignoff → Text → Bool
  verify_signoff s current =
      if not s.tamper_evident || not (text_eq s.provenance minted)
      then false
      else if not (text_eq s.integrity_hash (compute_signoff_hash s))
      then false
      else text_eq s.spec_hash current

pub record Policy : Type 0 where
  pub allow_self_merge : Bool
  pub required_reviewers : ℤ

unfoldable pub required_reviewers_or_default : Policy → ℤ
required_reviewers_or_default p =
    if ltb_ℤ p.required_reviewers (pos 1) then pos 1 else p.required_reviewers

pub record DomainBFacts : Type 0 where
  pub pr_exists : Bool
  pub pr_number : ℕ
  pub head_sha : Text
  pub base_sha : Text
  pub ci_green : Bool
  pub merged : Bool
  pub mergeable_state : Text
