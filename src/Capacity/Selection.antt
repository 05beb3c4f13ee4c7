-- ===== src/Capacity/Selection.antt =====
-- Which account internal/capacity/capacity.go selects, and how usage reports move the gate.
use flowbee.Base.{
  ◌≡◌, refl, sym, subst, ◌⊎◌, inl, inr, ◌↔◌, true, false, if◌then◌else◌, List, [], ◌∷◌, Option,
  none, some, arith, Bool-cases,
}
use mathlib.Core.List.{Memᴰ}
use flowbee.Base.Text.{
  Text, text_eq_iff, eq_of_text_eq, text_lt, text_lt_irrefl, text_lt_trans, text_lt_total,
}
use flowbee.Base.Int.{pos, ◌≤ℤ◌}
use flowbee.Capacity.{
  Account, at_ceiling, less, is_candidate, better, select_from, select_account, UsageReport,
  cleared, fold_usage,
}

pub less_irrefl : (a : Account) → less a a ≡ false
unfolding less
less_irrefl a = ground (arith, text_lt_irrefl a.account_id)

pub less_trans : (a b c : Account) → less a b ≡ true → less b c ≡ true → less a c ≡ true
unfolding less
less_trans a b c h k = ground (arith, text_lt_trans a.account_id b.account_id c.account_id)

less_asym : (a b : Account) → less a b ≡ true → less b a ≡ false
unfolding less
less_asym a b h =
    ground
      (arith, text_lt_irrefl a.account_id, text_lt_trans a.account_id b.account_id a.account_id)

-- Not coming before is transitive.
less_le : (a b c : Account) → less b a ≡ false → less c b ≡ false → less c a ≡ false
unfolding less
less_le a b c h k = ground (
  arith,
  text_lt_total a.account_id b.account_id,
  text_lt_total b.account_id c.account_id,
  text_lt_trans c.account_id a.account_id b.account_id,
  text_lt_trans c.account_id b.account_id a.account_id,
  text_lt_trans b.account_id c.account_id a.account_id,
)

-- `best` after one account, whichever way the round went.
abbrev after : Text → Option Account → Account → Option Account
after family best a = if is_candidate family a then better best a else best

after-some :
    (family : Text) (b a : Account)
    → (c : Account) × (after family (some b) a ≡ some c) × (less b c ≡ false)
unfolding better
after-some family b a = elim (Bool-cases (is_candidate family a)) [
  | inr skip ↦ (b, rw skip, less_irrefl b)
  | inl fits ↦ elim (Bool-cases (less a b)) [
    | inl wins ↦ (a, rw (fits, wins), less_asym a b wins)
    | inr loses ↦ (b, rw (fits, loses), less_irrefl b)
  ]
]

after-candidate :
    (family : Text) (best : Option Account) (a : Account)
    → is_candidate family a ≡ true
    → (c : Account) × (after family best a ≡ some c) × (less a c ≡ false)
unfolding better
after-candidate family none a fits = (a, rw fits, less_irrefl a)
after-candidate family (some b) a fits = elim (Bool-cases (less a b)) [
  | inl wins ↦ (a, rw (fits, wins), less_irrefl a)
  | inr loses ↦ (b, rw (fits, loses), loses)
]

-- The loop never trades `best` for something worse.
select_from-some :
    (family : Text) (b : Account) (xs : List Account)
    → (c : Account) × (select_from (some b) xs family ≡ some c) × (less b c ≡ false)
unfolding select_from
select_from-some family b [] = (b, refl, less_irrefl b)
select_from-some family b (x ∷ xs) =
    let (c, e, le) = after-some family b x in
    let (d, e', le') = select_from-some family c xs in (d, rw e e', less_le d c b le' le)

select_from-optimal :
    (family : Text) (best : Option Account) (xs : List Account) (a : Account)
    → Memᴰ a xs
    → is_candidate family a ≡ true
    → (c : Account) × (select_from best xs family ≡ some c) × (less a c ≡ false)
unfolding select_from
select_from-optimal family best [] a m fits = elim m [ ]
select_from-optimal family best (x ∷ xs) a (Memᴰ.head e) fits =
    let (c, e', le) =
      after-candidate family best x (subst (λ y. is_candidate family y ≡ true) e fits) in
    let (d, e'', le') = select_from-some family c xs in
    (d, rw e' e'', less_le d c a le' (subst (λ y. less y c ≡ false) (sym e) le))
select_from-optimal family best (x ∷ xs) a (Memᴰ.tail m) fits =
    select_from-optimal family (after family best x) xs a m fits

after_sound :
    (family : Text) (best : Option Account) (a c : Account)
    → after family best a ≡ some c
    → (best ≡ some c) ⊎ ((c ≡ a) × (is_candidate family a ≡ true))
unfolding better
after_sound family none a c e = ground arith
after_sound family (some b) a c e = ground arith

select_from_sound :
    (family : Text) (best : Option Account) (xs : List Account) (c : Account)
    → select_from best xs family ≡ some c
    → (best ≡ some c) ⊎ (Memᴰ c xs × (is_candidate family c ≡ true))
unfolding select_from
select_from_sound family best [] c e = inl e
select_from_sound family best (x ∷ xs) c e =
    elim (select_from_sound family (after family best x) xs c e) [
      | inr (m, fits) ↦ inr (Memᴰ.tail m, fits)
      | inl e' ↦ elim (after_sound family best x c e') [
        | inl old ↦ inl old
        | inr (same, fits) ↦
            inr (Memᴰ.head same, subst (λ y. is_candidate family y ≡ true) (sym same) fits)
      ]
    ]

-- The selected account is one of the list, of the model's family and below its ceiling.
pub select_account_sound :
    (accounts : List Account) (family : Text) (c : Account)
    → select_account accounts family ≡ some c
    → Memᴰ c accounts × (c.model_family ≡ family) × (at_ceiling c ≡ false)
unfolding select_account is_candidate
select_account_sound accounts family c e = elim (select_from_sound family none accounts c e) [
  | inl none_is_some ↦ absurd (ground arith)
  | inr (m, fits) ↦ (m, ground (arith, eq_of_text_eq c.model_family family), ground arith)
]

-- The account is not cooling after a 429, and it has no positive ceiling or its usage is below it.
abbrev pub HasRoom : Account → Type 0
HasRoom a =
    (a.rate_limited ≡ false) × ((a.ceiling_pct ≤ℤ pos 0) ⊎ (¬ (a.ceiling_pct ≤ℤ a.usage_pct)))

pub at_ceiling_iff : (a : Account) → (at_ceiling a ≡ false) ↔ HasRoom a
unfolding at_ceiling
at_ceiling_iff a = ground arith

-- A smaller rank comes first, and among equal ranks the smaller id.
abbrev pub Precedes : Account → Account → Type 0
Precedes a b =
    (¬ (b.preference_rank ≤ℤ a.preference_rank))
    ⊎ ((a.preference_rank ≡ b.preference_rank) × (text_lt a.account_id b.account_id ≡ true))

less_iff : (a b : Account) → (less a b ≡ true) ↔ Precedes a b
unfolding less
less_iff a b = ground arith

-- Whenever some account of the family has room, dispatch finds an account of the list and the family
-- that has room, and none that qualifies comes before it: a smaller rank comes first, and among equal
-- ranks the smaller id. An account has room when it is not cooling after a 429 and it has no positive
-- ceiling or its usage is below it.
pub select_account-optimal :
    (accounts : List Account) (family : Text) (a : Account)
    → Memᴰ a accounts
    → a.model_family ≡ family
    → HasRoom a
    → (c : Account) × (select_account accounts family ≡ some c)
      × Memᴰ c accounts
      × (c.model_family ≡ family)
      × HasRoom c
      × (¬ Precedes a c)
unfolding select_account is_candidate
select_account-optimal accounts family a m same room =
    let (c, found, last) =
      select_from-optimal family none accounts a m
        (ground (arith, text_eq_iff a.model_family family, at_ceiling_iff a)) in
    let (inside, of, below) = select_account_sound accounts family c found in
    (c, found, inside, of, (at_ceiling_iff c).0 below, λ p. absurd (ground (arith, less_iff a c)))

-- A usage report applied to an account.
abbrev pub reported : Account → UsageReport → Account
reported a r =
    let (pct, limited) = fold_usage a r in record a { usage_pct = pct; rate_limited = limited }

-- After a usage report the account is out of dispatch exactly when the report came from a 429, or
-- its percent has reached a positive ceiling: an earlier 429 alone no longer holds it out.
pub at_ceiling-fold_usage :
    (a : Account) (r : UsageReport)
    → (at_ceiling (reported a r) ≡ true)
      ↔ ((r.rate_limited ≡ true) ⊎ ((¬ (a.ceiling_pct ≤ℤ pos 0)) × (a.ceiling_pct ≤ℤ r.usage_pct)))
unfolding at_ceiling fold_usage cleared
at_ceiling-fold_usage a r = ground arith
