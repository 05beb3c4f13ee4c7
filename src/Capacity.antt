-- ===== src/Capacity.antt =====
-- internal/capacity/capacity.go: account selection under usage ceilings, slots, and usage reports.
pub mod Selection
use flowbee.Base.{
  ℕ, suc, ◌≤◌, Bool, true, false, not, ◌&&◌, ◌||◌, if◌then◌else◌, List, [], ◌∷◌, Option, none, some,
}
use flowbee.Base.Text.{Text, text_eq, text_lt}
use flowbee.Base.Int.{ℤ, pos, leb_ℤ, ltb_ℤ}

pub record Account : Type 0 where
  pub account_id : Text
  pub model_family : Text
  pub ceiling_pct : ℤ
  pub preference_rank : ℤ
  pub usage_pct : ℤ
  pub rate_limited : Bool

unfoldable pub at_ceiling : Account → Bool
at_ceiling a =
    if a.rate_limited
    then true
    else if leb_ℤ a.ceiling_pct (pos 0)
    then false
    else leb_ℤ a.ceiling_pct a.usage_pct

-- `a.PreferenceRank != b.PreferenceRank`, and then the rank decides.
unfoldable pub less : Account → Account → Bool
less a b =
    if ltb_ℤ a.preference_rank b.preference_rank
    then true
    else if ltb_ℤ b.preference_rank a.preference_rank
    then false
    else text_lt a.account_id b.account_id

-- The two `continue`s of the loop.
unfoldable pub is_candidate : Text → Account → Bool
is_candidate family a = text_eq a.model_family family && not (at_ceiling a)

-- `!found || less(a, best)`
unfoldable pub better : Option Account → Account → Option Account
better none a = some a
better (some best) a = if less a best then some a else some best

-- The loop over the accounts; `none` is `found == false`.
unfoldable pub select_from : Option Account → List Account → Text → Option Account
select_from best [] family = best
select_from best (a ∷ rest) family =
    select_from (if is_candidate family a then better best a else best) rest family

unfoldable pub select_account : List Account → Text → Option Account
unfolding select_from
select_account accounts family = select_from none accounts family

unfoldable pub has_free_slot : ℤ → ℤ → Bool
has_free_slot max_slots active = if leb_ℤ max_slots (pos 0) then false else ltb_ℤ active max_slots

pub record UsageReport : Type 0 where
  pub account_id : Text
  pub model_family : Text
  pub usage_pct : ℤ
  pub rate_limited : Bool

-- A rate-limited account has cooled when the reported percent is under its ceiling.
unfoldable pub cleared : Account → UsageReport → Bool
cleared prior r =
    prior.rate_limited && (leb_ℤ prior.ceiling_pct (pos 0) || ltb_ℤ r.usage_pct prior.ceiling_pct)

unfoldable pub fold_usage : Account → UsageReport → ℤ × Bool
fold_usage prior r =
    if r.rate_limited
    then (if ltb_ℤ r.usage_pct (pos 100) then pos 100 else r.usage_pct, true)
    else (r.usage_pct, prior.rate_limited && not (cleared prior r))
