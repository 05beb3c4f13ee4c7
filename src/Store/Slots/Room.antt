-- ===== src/Store/Slots/Room.antt =====
-- When the slot gate and the account selection of internal/store/capacity.go let a claim pass.
use flowbee.Base.{
  ℕ, ◌+◌, subst, Bool, if◌then◌else◌, ◌≡◌, ◌≢◌, ◌⊎◌, ◌↔◌, refl, inl, inr, true, false, List, [],
  ◌∷◌, Option, none, some, arith, Bool-cases, Option-cases,
}
use mathlib.Core.List.{Memᴰ}
use flowbee.Job.State.{has_active_lease}
use flowbee.Base.Lists.{length, keep, keep-mem, mem-keep}
use flowbee.Base.Int.{ℤ, pos, ◌≤ℤ◌, ltb_ℤ}
use flowbee.Base.Text.{Text, text_eq, text_eq_iff, is_empty, is_empty_iff}
use flowbee.Capacity.{Account, select_account, has_free_slot}
use flowbee.Capacity.Selection.{
  HasRoom, select_account-optimal, select_account_sound, at_ceiling_iff,
}
use flowbee.Store.Tables.{Worker}
use flowbee.Store.Slots.{
  Binding, Fleet, is_text, worker_of_identity, worker_of_id, advertised, active_leases,
  active_model_leases, legacy_slot_gate, slot_gate_of, model_slot_gate, family_accounts,
  has_accounts, selected_id, select_account_id,
}

pub is_text_iff : (o : Option Text) (t : Text) → (is_text o t ≡ true) ↔ (o ≡ some t)
unfolding is_text
is_text_iff none t = ground arith
is_text_iff (some s) t = ground (arith, text_eq_iff s t)

-- `n` of the rows are such as `P` says.
pub data Tally (P : Binding → Type 0) : List Binding → ℕ → Type 0 where
  start : Tally P [] 0
  counted :
      {b : Binding} {bs : List Binding} {n : ℕ} → P b → Tally P bs n → Tally P (b ∷ bs) (n + 1)
  passed_over :
      {b : Binding} {bs : List Binding} {n : ℕ} → (¬ P b) → Tally P bs n → Tally P (b ∷ bs) n

module _ (p : Binding → Bool) (P : Binding → Type 0)
    (iff : (b : Binding) → (p b ≡ true) ↔ P b) where
  Tally-keep : (bs : List Binding) → Tally P bs (length (keep p bs))
  unfolding keep
  Tally-keep [] = start
  Tally-keep (b ∷ bs) = elim (Bool-cases (p b)) [
    | inl holds ↦
        let more = counted ((iff b).0 holds) (Tally-keep bs) in
        subst (Tally P (b ∷ bs)) (rw holds (omega arith)) more
    | inr fails ↦ rw fails (passed_over (λ y. absurd (ground (arith, (iff b).1 y))) (Tally-keep bs))
  ]

  Tally-unique : (bs : List Binding) (n : ℕ) → Tally P bs n → n ≡ length (keep p bs)
  unfolding keep
  Tally-unique [] n start = refl
  Tally-unique (b ∷ bs) n (counted {n = m} y t) =
      let rest = Tally-unique bs m t in rw ((iff b).1 y) (omega (arith, rest))
  Tally-unique (b ∷ bs) n (passed_over fails t) = elim (Bool-cases (p b)) [
    | inl holds ↦ absurd (fails ((iff b).0 holds))
    | inr other ↦ rw other (Tally-unique bs n t)
  ]

module _ (fleet : Fleet) (workers : List Worker) (identity family : Text) where
  -- The row is a lease that the claimant holds, and one of the family.
  abbrev pub Holds : Binding → Type 0
  Holds b = (b.bound_identity ≡ some identity) × (has_active_lease b.state ≡ true)

  abbrev pub HoldsOfFamily : Binding → Type 0
  HoldsOfFamily b = Holds b × (b.bound_model_family ≡ some family)

  active_leases-Tally : Tally Holds fleet.others (active_leases fleet identity)
  unfolding active_leases
  active_leases-Tally =
      Tally-keep _ Holds (λ b. ground (arith, is_text_iff b.bound_identity identity)) fleet.others

  active_leases_unique : (n : ℕ) → Tally Holds fleet.others n → n ≡ active_leases fleet identity
  unfolding active_leases
  active_leases_unique n t =
      Tally-unique _ Holds (λ b. ground (arith, is_text_iff b.bound_identity identity)) fleet.others
        n t

  active_model_leases-Tally :
      Tally HoldsOfFamily fleet.others (active_model_leases fleet identity family)
  unfolding active_model_leases
  active_model_leases-Tally =
      Tally-keep _ HoldsOfFamily
        (λ b.
          ground
            (arith, is_text_iff b.bound_identity identity, is_text_iff b.bound_model_family family))
        fleet.others

  active_model_leases_unique :
      (n : ℕ) → Tally HoldsOfFamily fleet.others n → n ≡ active_model_leases fleet identity family
  unfolding active_model_leases
  active_model_leases_unique n t =
      Tally-unique _ HoldsOfFamily
        (λ b.
          ground
            (arith, is_text_iff b.bound_identity identity, is_text_iff b.bound_model_family family))
        fleet.others n t

  -- A worker that is not registered, or that holds no lease, or fewer than its maximum.
  abbrev pub LegacyRoom : Option Worker → Type 0
  LegacyRoom none = Unit
  LegacyRoom (some w) =
      (n : ℕ) × Tally Holds fleet.others n × ((n ≡ 0) ⊎ (¬ (w.max_concurrent_leases ≤ℤ pos n)))

  -- A worker that advertises slots for the family holds fewer leases of the family than those.
  abbrev pub SlotRoom : Text → Option ℤ → Type 0
  SlotRoom id none = LegacyRoom (worker_of_id workers id)
  SlotRoom id (some max) = (n : ℕ) × Tally HoldsOfFamily fleet.others n × (¬ (max ≤ℤ pos n))

  abbrev pub HasSlot : Text → Type 0
  HasSlot id = SlotRoom id (advertised fleet.slots id family)

  legacy_free :
      (max : ℤ) (n : ℕ)
      → (has_free_slot (if ltb_ℤ max (pos 1) then pos 1 else max) (pos n) ≡ true)
        ↔ ((n ≡ 0) ⊎ (¬ (max ≤ℤ pos n)))
  unfolding has_free_slot
  legacy_free max n = elim (Bool-cases (ltb_ℤ max (pos 1))) [
    | inl low ↦ rw low (ground arith)
    | inr high ↦ rw high (ground arith)
  ]

  legacy_slot_gate_iff :
      (id : Text)
      → (legacy_slot_gate fleet workers id identity ≡ true) ↔ LegacyRoom (worker_of_id workers id)
  unfolding legacy_slot_gate
  legacy_slot_gate_iff id = elim (Option-cases (worker_of_id workers id)) [
    | inl e ↦ rw (legacy_slot_gate, e) (λ h. tt, λ h. refl)
    | inr (w, e) ↦
        let free = legacy_free w.max_concurrent_leases (active_leases fleet identity) in
        rw (legacy_slot_gate, e)
          (
            λ h. (active_leases fleet identity, active_leases-Tally, free.0 h),
            λ (n, t, room). free.1 (
                subst (λ k. (k ≡ 0) ⊎ (¬ (w.max_concurrent_leases ≤ℤ pos k)))
                  (active_leases_unique n t) room),
          )
  ]

  model_free : (max : ℤ) (n : ℕ) → (has_free_slot max (pos n) ≡ true) ↔ (¬ (max ≤ℤ pos n))
  unfolding has_free_slot
  model_free max n = ground arith

  slot_gate_of_iff :
      (id : Text) → (slot_gate_of fleet workers id identity family ≡ true) ↔ HasSlot id
  unfolding slot_gate_of
  slot_gate_of_iff id = elim (Option-cases (advertised fleet.slots id family)) [
    | inl e ↦ rw (slot_gate_of, e) (legacy_slot_gate_iff id)
    | inr (max, e) ↦
        let free = model_free max (active_model_leases fleet identity family) in
        rw (slot_gate_of, e)
          (
            λ h. (active_model_leases fleet identity family, active_model_leases-Tally, free.0 h),
            λ (n, t, room).
                free.1 (subst (λ k. ¬ (max ≤ℤ pos k)) (active_model_leases_unique n t) room),
          )
  ]

  -- A claimant that names no worker is served if it is unregistered, or by the slots of its registration.
  abbrev pub OwnSlot : Option Worker → Type 0
  OwnSlot none = Unit
  OwnSlot (some w) = HasSlot w.worker_id

  -- The claimant is anonymous or of no family, or has a free slot under the id that it names, or names
  -- none and is served by its registration.
  abbrev pub IsServed : Text → Type 0
  IsServed id =
      (identity ≡ [])
      ⊎ (family ≡ [])
      ⊎ ((id ≢ []) × HasSlot id)
      ⊎ ((id ≡ []) × OwnSlot (worker_of_identity workers identity))

  pub model_slot_gate_iff :
      (id : Text) → (model_slot_gate fleet workers id identity family ≡ true) ↔ IsServed id
  unfolding model_slot_gate
  model_slot_gate_iff id = elim (Option-cases (worker_of_identity workers identity)) [
    | inl e ↦ rw e (
        ground
          (arith, is_empty_iff identity, is_empty_iff family, is_empty_iff id, slot_gate_of_iff id))
    | inr (w, e) ↦ rw e (
        ground (
          arith,
          is_empty_iff identity,
          is_empty_iff family,
          is_empty_iff id,
          slot_gate_of_iff id,
          slot_gate_of_iff w.worker_id,
        ))
  ]

-- No family is asked for, or the fleet has no account of it, or one that has room.
abbrev pub HasAccount : Fleet → Text → Type 0
HasAccount fleet family =
    (family ≡ [])
    ⊎ ((a : Account) → Memᴰ a fleet.accounts → a.model_family ≢ family)
    ⊎ ((a : Account) × Memᴰ a fleet.accounts × (a.model_family ≡ family) × HasRoom a)

no_accounts : (xs : List Account) (a : Account) → has_accounts xs ≡ false → Memᴰ a xs → ⊥
unfolding has_accounts
no_accounts [] a h m = elim m [ ]
no_accounts (x ∷ xs) a h m = absurd (ground arith)

some_account : (xs : List Account) → has_accounts xs ≡ true → (a : Account) × Memᴰ a xs
unfolding has_accounts
some_account [] h = absurd (ground arith)
some_account (x ∷ xs) h = (x, Memᴰ.head refl)

selects_some :
    (accounts : List Account) (family : Text) (c : Account)
    → select_account accounts family ≡ some c
    → selected_id (select_account accounts family) ≢ none
unfolding selected_id
selects_some accounts family c e h = absurd (ground (arith, rw e at h))

selects_none :
    (accounts : List Account) (family : Text)
    → select_account accounts family ≡ none
    → selected_id (select_account accounts family) ≡ none
unfolding selected_id
selects_none accounts family e = rw e refl

module _ (fleet : Fleet) (family : Text) where
  pub select_account_id-some : select_account_id fleet family ≢ none → HasAccount fleet family
  unfolding select_account_id family_accounts
  select_account_id-some h = elim (Bool-cases (is_empty family)) [
    | inl e ↦ inl ((is_empty_iff family).0 e)
    | inr asked ↦ elim (Bool-cases (has_accounts (family_accounts fleet family))) [
      | inr nobody ↦ inr (
          inl (λ a m same. no_accounts (family_accounts fleet family) a nobody (
            mem-keep (λ x. text_eq x.model_family family) a fleet.accounts m
              ((text_eq_iff a.model_family family).1 same))))
      | inl enrolled ↦ elim (Option-cases (select_account (family_accounts fleet family) family)) [
        | inl e ↦ absurd (h (rw (asked, enrolled) (selects_none _ family e)))
        | inr (c, e) ↦
            let (m, of, room) = select_account_sound (family_accounts fleet family) family c e in
            inr (
              inr (
                c,
                (keep-mem (λ x. text_eq x.model_family family) c fleet.accounts m).0,
                of,
                (at_ceiling_iff c).0 room,
              ))
      ]
    ]
  ]

  pub select_account_id-none : HasAccount fleet family → select_account_id fleet family ≢ none
  unfolding select_account_id family_accounts
  select_account_id-none (inl e) = rw ((is_empty_iff family).1 e) (λ z. absurd (ground arith))
  select_account_id-none (inr (inl free)) =
      elim (Bool-cases (has_accounts (family_accounts fleet family))) [
        | inr nobody ↦ rw nobody (ground arith)
        | inl enrolled ↦
            let (a, m) = some_account (family_accounts fleet family) enrolled in
            let (n, same) = keep-mem (λ x. text_eq x.model_family family) a fleet.accounts m in
            absurd (free a n ((text_eq_iff a.model_family family).0 same))
      ]
  select_account_id-none (inr (inr (a, m, of, room))) =
      let kept =
        mem-keep (λ x. text_eq x.model_family family) a fleet.accounts m
          ((text_eq_iff a.model_family family).1 of) in
      let (c, found, _, _, _, _) =
        select_account-optimal (family_accounts fleet family) family a kept of room in
      let chosen = selects_some (family_accounts fleet family) family c found in
      ground (arith, chosen)
