-- ===== src/Store/Panel/Quorum.antt =====
-- How the claim of a review and the tally of `ReviewResult` in internal/store/flow.go count the same
-- reviewers.
use flowbee.Base.{ℕ, ◌+◌, ◌≤◌, ◌≡◌, refl, Bool, true, false, ◌&&◌, List, [], ◌∷◌, ◌++◌, arith}
use flowbee.Base.Lists.{any, keep}
use flowbee.Base.Text.{Text, text_eq, text_eq_iff}
use flowbee.Ledger.Event.{Event, EventKind}
use flowbee.Store.Panel.{
  opens_round, opens_tally, last_opened, approves_after, approved_in_round, distinct_actors,
  prior_approvals,
}

-- The approvals that the tally counts.
abbrev pub approvals : List Event → List Event
approvals es = keep (approves_after (last_opened opens_tally es)) es

round_tally : (k : EventKind) → opens_round k ≡ true → opens_tally k ≡ true
unfolding opens_round opens_tally
round_tally k h = ground arith

-- A tally starts no earlier than the round.
last_opened_le : (es : List Event) → last_opened opens_round es ≤ last_opened opens_tally es
unfolding last_opened
last_opened_le [] = omega arith
last_opened_le (e ∷ es) = ground (arith, round_tally e.kind, last_opened_le es)

any-last :
    (p : Event → Bool) (es : List Event) (e : Event) → p e ≡ false → any p (es ++ e ∷ []) ≡ any p es
unfolding any
any-last p [] e h = rw h refl
any-last p (f ∷ es) e h = ground (arith, any-last p es e h)

-- The distinct actors of approvals of which none is by the actor of one more.
distinct_actors-new :
    (es : List Event) (e : Event)
    → any (λ f. text_eq f.actor e.actor) es ≡ false
    → distinct_actors (es ++ e ∷ []) ≡ distinct_actors es + 1
unfolding distinct_actors any
distinct_actors-new [] e h = refl
distinct_actors-new (f ∷ es) e h =
    let other : text_eq e.actor f.actor ≡ false =
      ground (arith, text_eq_iff e.actor f.actor, text_eq_iff f.actor e.actor) in
    rw (any-last (λ g. text_eq g.actor f.actor) es e other)
      (ground (arith, distinct_actors-new es e))

-- Whoever has not approved in the round is not among those that the tally counts.
tally-any :
    (n m : ℕ) (identity : Text) (es : List Event)
    → n ≤ m
    → any (λ e. approves_after n e && text_eq e.actor identity) es ≡ false
    → any (λ e. text_eq e.actor identity) (keep (approves_after m) es) ≡ false
unfolding any keep approves_after
tally-any n m identity [] le h = refl
tally-any n m identity (e ∷ es) le h = ground (arith, tally-any n m identity es le)

-- If the reviewer has not approved in the round, which is what the claim of the review demands, then
-- the approval is one by a new identity: the distinct identities of the tally with it are one more
-- than those that the gate has counted.
pub prior_approvals-new :
    (es : List Event) (e : Event)
    → approved_in_round e.actor es ≡ false
    → distinct_actors (approvals es ++ e ∷ []) ≡ prior_approvals es + 1
unfolding approved_in_round prior_approvals
prior_approvals-new es e h = distinct_actors-new (approvals es) e (
    tally-any (last_opened opens_round es) (last_opened opens_tally es) e.actor es
      (last_opened_le es) h)
