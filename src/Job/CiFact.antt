-- ===== src/Job/CiFact.antt =====
-- internal/job/cifact.go: CI as a fact that either GitHub Actions or a Flowbee test job may supply.
use flowbee.Base.{◌≡◌, ◌≢◌, ◌⊎◌, ◌↔◌, Bool, true, false, ◌&&◌, if◌then◌else◌, List, [], arith}
use mathlib.Core.List.{Memᴰ}
use flowbee.Base.Text.{Text, bytes, text_eq, text_eq_iff, is_empty, is_empty_iff}
use flowbee.Base.Lists.{any, any_sound, any_complete}

abbrev pub flowbee_test : Text
flowbee_test = bytes "flowbee_test"

abbrev pub reconciled_actions : Text
reconciled_actions = bytes "reconciled_actions"

pub record CiFact : Type 0 where
  pub head_sha : Text
  pub green : Bool
  pub provenance : Text

unfoldable pub counts_at : Text → CiFact → Bool
counts_at head f = f.green && text_eq f.provenance flowbee_test && text_eq f.head_sha head

unfoldable pub ci_green_at_head : Bool → Text → List CiFact → Bool
ci_green_at_head reconciled_green head facts =
    if reconciled_green then true else if is_empty head then false else any (counts_at head) facts

-- A green test-job fact bound to the head.
abbrev pub HasTestFact : Text → List CiFact → Type 0
HasTestFact head facts =
    (f : CiFact) × Memᴰ f facts
    × (f.green ≡ true)
    × (f.provenance ≡ flowbee_test)
    × (f.head_sha ≡ head)

counts_at_iff :
    (head : Text) (f : CiFact)
    → (counts_at head f ≡ true)
      ↔ ((f.green ≡ true) × (f.provenance ≡ flowbee_test) × (f.head_sha ≡ head))
unfolding counts_at
counts_at_iff head f =
    ground (arith, text_eq_iff f.provenance flowbee_test, text_eq_iff f.head_sha head)

any-HasTestFact :
    (head : Text) (facts : List CiFact)
    → (any (counts_at head) facts ≡ true) ↔ HasTestFact head facts
any-HasTestFact head facts = (
  λ h.
      let (f, m, c) = any_sound (counts_at head) facts h in
      let (g, p, e) = (counts_at_iff head f).0 c in (f, m, g, p, e),
  λ (f, m, g, p, e). any_complete (counts_at head) f facts m ((counts_at_iff head f).1 (g, p, e)),
)

-- CI counts as green at a head exactly when the reconciled fact is green, or the head is known and
-- some green test-job fact is bound to that very head.
pub ci_green_at_head_iff :
    (reconciled_green : Bool) (head : Text) (facts : List CiFact)
    → (ci_green_at_head reconciled_green head facts ≡ true)
      ↔ ((reconciled_green ≡ true) ⊎ ((head ≢ []) × HasTestFact head facts))
unfolding ci_green_at_head
ci_green_at_head_iff r head facts = ground (arith, is_empty_iff head, any-HasTestFact head facts)
