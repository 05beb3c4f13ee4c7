-- ===== src/Scheduler/Ranking.antt =====
-- The offer order of internal/scheduler/scheduler.go: what is offered, in which order, and that a
-- waiting job overtakes.
use mathlib.Core.List.{Memᴰ, Perm}
use flowbee.Base.{
  ℕ, ◌+◌, ◌*◌, ◌/◌, ◌≤◌, ◌<◌, ◌≡◌, refl, sym, subst, ◌⊎◌, inl, inr, true, false, List, [], ◌∷◌,
  none, some, arith, ◌-◌, ◌↔◌, Bool-cases, ltb,
}
use flowbee.Base.Text.{Text, text_lt, text_lt_irrefl, text_lt_trans, text_lt_total}
use flowbee.Base.Int.{ℤ, pos, neg, ◌+ℤ◌, ltb_ℤ, ◌≤ℤ◌}
use flowbee.Base.Lists.{keep, keep-mem, mem-keep}
use flowbee.Base.Sorting.{
  sort_stable, sort_stable-perm, sort_stable-IsSorted, IsSorted, NoneLess, NoneLess-mem,
  mem-sort_stable, sort_stable-mem,
}
use native.Mathlib.Nat.{le-div_iff_mul-le, div-mul-le_self}
use flowbee.Job.Caps.Match.{Meets, capabilities_satisfy_iff}
use flowbee.Scheduler.{
  Candidate, waited, effective_priority, eligible, ranks_before, offers_before, first, pick_with,
  order, aging_rate, older_before,
}

older_asym : (a b : Candidate) → older_before a b ≡ true → older_before b a ≡ false
unfolding older_before
older_asym a b h = ground (arith, text_lt_irrefl a.job_id, text_lt_trans a.job_id b.job_id a.job_id)

older_trans :
    (a b c : Candidate)
    → older_before b a ≡ false
    → older_before c b ≡ false
    → older_before c a ≡ false
unfolding older_before
older_trans a b c h k = ground (
  arith,
  text_lt_total a.job_id b.job_id,
  text_lt_total b.job_id c.job_id,
  text_lt_trans c.job_id a.job_id b.job_id,
  text_lt_trans c.job_id b.job_id a.job_id,
  text_lt_trans b.job_id c.job_id a.job_id,
)

ranks_asym :
    (now : ℕ) (rate : ℤ) (a b : Candidate)
    → ranks_before now rate a b ≡ true
    → ranks_before now rate b a ≡ false
unfolding ranks_before
ranks_asym now rate a b h = ground (arith, older_asym a b)

ranks_trans :
    (now : ℕ) (rate : ℤ) (a b c : Candidate)
    → ranks_before now rate b a ≡ false
    → ranks_before now rate c b ≡ false
    → ranks_before now rate c a ≡ false
unfolding ranks_before
ranks_trans now rate a b c h k = ground (arith, older_trans a b c)

ranks_irrefl : (now : ℕ) (rate : ℤ) (a : Candidate) → ranks_before now rate a a ≡ false
unfolding ranks_before older_before
ranks_irrefl now rate a = ground (arith, text_lt_irrefl a.job_id)

offers_asym :
    (now : ℕ) (a b : Candidate) → offers_before now a b ≡ true → offers_before now b a ≡ false
unfolding offers_before
offers_asym now a b h = ground (arith, ranks_asym now aging_rate a b)

offers_trans :
    (now : ℕ) (a b c : Candidate)
    → offers_before now b a ≡ false
    → offers_before now c b ≡ false
    → offers_before now c a ≡ false
unfolding offers_before
offers_trans now a b c h k = ground (arith, ranks_trans now aging_rate a b c)

-- How urgent a candidate is: less for a larger priority, and one more for every 600 seconds of waiting,
-- in nanoseconds.
abbrev pub urgency : ℕ → Candidate → ℤ
urgency now c = neg c.priority +ℤ pos ((now - c.enqueued_at) / 600000000000)

effective_priority-urgency :
    (c : Candidate) (now : ℕ) → effective_priority c now aging_rate ≡ urgency now c
unfolding effective_priority waited
effective_priority-urgency c now = elim (Bool-cases (ltb now c.enqueued_at)) [
  | inl early ↦ let zero : now - c.enqueued_at ≡ 0 = ground (arith, early) in rw (early, zero) refl
  | inr late ↦ rw late refl
]

-- What puts one candidate before another: being ready where the other is not, or else more urgency, or
-- else an earlier entry into the queue, or else not having the larger id.
abbrev pub Leads : ℕ → Candidate → Candidate → Type 0
Leads now a b =
    ((a.ci_ready ≡ true) × (b.ci_ready ≡ false))
    ⊎ ((a.ci_ready ≡ b.ci_ready)
        × ((¬ (urgency now a ≤ℤ urgency now b))
            ⊎ ((urgency now a ≡ urgency now b)
                × ((a.enqueued_at < b.enqueued_at)
                    ⊎ ((a.enqueued_at ≡ b.enqueued_at) × (text_lt b.job_id a.job_id ≡ false))))))

-- Each candidate of the list leads all that follow it.
abbrev pub InOrder : ℕ → List Candidate → Type 0
InOrder now [] = Unit
InOrder now (a ∷ rest) = ((b : Candidate) → Memᴰ b rest → Leads now a b) × InOrder now rest

offers-Leads : (now : ℕ) (a b : Candidate) → offers_before now b a ≡ false → Leads now a b
unfolding offers_before ranks_before older_before
offers-Leads now a b h =
    ground (arith, effective_priority-urgency a now, effective_priority-urgency b now)

sorted-InOrder : (now : ℕ) (xs : List Candidate) → IsSorted (offers_before now) xs → InOrder now xs
sorted-InOrder now [] h = tt
sorted-InOrder now (a ∷ rest) (first_of, h) = (
  λ b m. offers-Leads now a b (NoneLess-mem (offers_before now) a b rest first_of m),
  sorted-InOrder now rest h,
)

-- The offer list is a rearrangement of the eligible candidates, those whose every required
-- capability the worker attests, and whoever stands in it before another candidate leads it: of two
-- that are not equally CI-ready the ready one leads, else the more urgent one, at equal urgency the
-- one that entered the queue earlier, and among those one whose id is not the larger. The urgency
-- is the negated priority and one more for each 600 seconds of waiting.
pub order_correct :
    (cands : List Candidate) (attested : List Text) (now : ℕ)
    → Perm (order cands attested now) (keep (eligible attested) cands)
      × ((c : Candidate)
          → (eligible attested c ≡ true)
            ↔ ((req : Text) → Memᴰ req c.required_capabilities → Meets attested req))
      × InOrder now (order cands attested now)
unfolding order eligible
order_correct cands attested now = (
  sort_stable-perm (offers_before now) _,
  λ c. capabilities_satisfy_iff attested c.required_capabilities,
  sorted-InOrder now _
      (sort_stable-IsSorted (offers_before now) (offers_asym now) (offers_trans now) _),
)

first-cases :
    (xs : List Candidate)
    → ((xs ≡ []) × (first xs ≡ none))
      ⊎ ((c : Candidate) × (cs : List Candidate) × (xs ≡ c ∷ cs) × (first xs ≡ some c))
unfolding first
first-cases [] = inl (refl, refl)
first-cases (c ∷ cs) = inr (c, cs, refl, refl)

head-least :
    (now : ℕ) (rate : ℤ) (c b : Candidate) (cs : List Candidate)
    → NoneLess (ranks_before now rate) c cs
    → Memᴰ b (c ∷ cs)
    → ranks_before now rate b c ≡ false
head-least now rate c b cs n (Memᴰ.head e) =
    subst (λ d. ranks_before now rate d c ≡ false) (sym e) (ranks_irrefl now rate c)
head-least now rate c b cs n (Memᴰ.tail m) = NoneLess-mem (ranks_before now rate) c b cs n m

-- Whenever some candidate's required capabilities are attested, `Pick` returns a candidate of the
-- list whose capabilities are attested too, and that candidate ranks before it or they tie.
pub pick_with-best :
    (cands : List Candidate) (attested : List Text) (now : ℕ) (rate : ℤ) (b : Candidate)
    → Memᴰ b cands
    → eligible attested b ≡ true
    → (c : Candidate) × (pick_with cands attested now rate ≡ some c)
      × Memᴰ c cands
      × (eligible attested c ≡ true)
      × (ranks_before now rate b c ≡ false)
unfolding pick_with
pick_with-best cands attested now rate b m h =
    let less = ranks_before now rate in
    let kept = keep (eligible attested) cands in
    let inside = mem-sort_stable less b kept (mem-keep (eligible attested) b cands m h) in
    elim (first-cases (sort_stable less kept)) [
      | inl (e, _) ↦ absurd (nothing (rw e at inside))
      | inr (c, cs, e, f) ↦
          let sorted =
            subst (IsSorted less) e
              (sort_stable-IsSorted less (ranks_asym now rate) (ranks_trans now rate) kept) in
          let (n, fits) =
            keep-mem (eligible attested) c cands
              (sort_stable-mem less c kept (rw e (Memᴰ.head refl))) in
          (c, f, n, fits, head-least now rate c b cs sorted.0 (rw e at inside))
    ]
  where
    nothing : Memᴰ b [] → ⊥
    nothing e = elim e [ ]

-- The division of the two waits keeps the distance in whole periods.
periods : (wa wb rate k : ℕ) → 0 < rate → wb + (k + 1) * rate ≤ wa → wb / rate + (k + 1) ≤ wa / rate
periods wa wb rate k r h = (le-div_iff_mul-le r).1 (omega (arith, div-mul-le_self wb rate))

priority_lt :
    (pa pb qa qb : ℕ)
    → pa + qb < pb + qa
    → ltb_ℤ (neg (pos pb) +ℤ pos qb) (neg (pos pa) +ℤ pos qa) ≡ true
unfolding neg ◌+ℤ◌
priority_lt pa pb qa qb h = ground arith

-- Aging overtakes. At a positive rate, a job that is less urgent than another by at most k bands
-- ranks before it once it has waited at least k + 1 aging periods longer.
pub aging_overtakes :
    (now rate k : ℕ) (a b : Candidate) (pa pb : ℕ)
    → 0 < rate
    → a.priority ≡ pos pa
    → b.priority ≡ pos pb
    → pa ≤ pb + k
    → waited b now + (k + 1) * rate ≤ waited a now
    → ranks_before now (pos rate) a b ≡ true
unfolding ranks_before effective_priority
aging_overtakes now rate k a b pa pb r p q gap longer =
    let far = periods (waited a now) (waited b now) rate k r longer in
    ground (arith, priority_lt pa pb (waited a now / rate) (waited b now / rate) (omega arith))
