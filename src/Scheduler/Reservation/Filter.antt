-- ===== src/Scheduler/Reservation/Filter.antt =====
-- What the reservations of internal/scheduler/reservation.go keep apart.
use flowbee.Base.{
  ◌≡◌, ◌≢◌, ◌⊎◌, ◌↔◌, refl, sym, inl, inr, Bool, true, false, List, [], ◌∷◌, ◌++◌, Option, none,
  some, arith, Bool-cases, Option-cases, ◌∙◌, subst,
}
use mathlib.Core.List.{Memᴰ}
use flowbee.Base.Text.{Text, text_eq, text_eq_iff, eq_of_text_eq}
use flowbee.Base.Lists.{any, any_sound, any_complete, keep-mem, mem-keep}
use flowbee.Base.Strings.{starts_with_iff, as_directory}
use flowbee.Scheduler.{Candidate}
use flowbee.Scheduler.Reservation.{
  WriteSet, Reservation, normalized_non_empty, is_wide, is_prefix_dir, paths_overlap, overlaps,
  no_paths, candidate_write_set, withholds, blocking_reservation, reservation_conflicts, blocked_by,
  stays, reservation_filter,
}

-- `child` lies under the directory `parent`.
abbrev pub Beneath : Text → Text → Type 0
Beneath parent child = (rest : Text) × (child ≡ as_directory parent ++ rest)

-- The same path, or one under the other.
abbrev pub Meet : Text → Text → Type 0
Meet p q = (p ≡ q) ⊎ Beneath p q ⊎ Beneath q p

paths_overlap_iff : (p q : Text) → (paths_overlap p q ≡ true) ↔ Meet p q
unfolding paths_overlap is_prefix_dir
paths_overlap_iff p q =
    ground (
      arith,
      text_eq_iff p q,
      starts_with_iff (as_directory p) q,
      starts_with_iff (as_directory q) p,
    )

-- Two declared write-sets share a place of the tree.
abbrev pub SharePath : WriteSet → WriteSet → Type 0
SharePath w v =
    (p q : Text) × Memᴰ p (normalized_non_empty w.paths)
    × Memᴰ q (normalized_non_empty v.paths)
    × Meet p q

any_pairs :
    (ps qs : List Text)
    → (any (λ p. any (paths_overlap p) qs) ps ≡ true)
      ↔ ((p q : Text) × Memᴰ p ps × Memᴰ q qs × Meet p q)
any_pairs ps qs = (
  λ h.
      let (p, m, some_q) = any_sound (λ p. any (paths_overlap p) qs) ps h in
      let (q, n, hit) = any_sound (paths_overlap p) qs some_q in
      (p, q, m, n, (paths_overlap_iff p q).0 hit),
  λ (p, q, m, n, meet).
      any_complete (λ p. any (paths_overlap p) qs) p ps m
        (any_complete (paths_overlap p) q qs n ((paths_overlap_iff p q).1 meet)),
)

-- Two write-sets overlap exactly when one of them is wide, or a path of the one is a path of the
-- other or lies under it, in either direction.
pub overlaps_iff :
    (w v : WriteSet)
    → (overlaps w v ≡ true) ↔ ((is_wide w ≡ true) ⊎ (is_wide v ≡ true) ⊎ SharePath w v)
unfolding overlaps
overlaps_iff w v =
    ground (arith, any_pairs (normalized_non_empty w.paths) (normalized_non_empty v.paths))

-- A write-set that is declared wide, or that names no path.
abbrev pub Wide : WriteSet → Type 0
Wide w = (w.wide ≡ true) ⊎ (normalized_non_empty w.paths ≡ [])

no_paths_iff : (ps : List Text) → (no_paths ps ≡ true) ↔ (ps ≡ [])
unfolding no_paths
no_paths_iff [] = ground arith
no_paths_iff (p ∷ ps) = ground arith

is_wide_iff : (w : WriteSet) → (is_wide w ≡ true) ↔ Wide w
unfolding is_wide
is_wide_iff w = ground (arith, no_paths_iff (normalized_non_empty w.paths))

-- A held write-set keeps a candidate out: a wide one keeps everybody out, another one those whose own
-- entry is declared wide or shares a place with it.
abbrev pub KeepsOut : WriteSet → Option WriteSet → Type 0
KeepsOut held none = Wide held
KeepsOut held (some ws) = Wide held ⊎ (ws.wide ≡ true) ⊎ SharePath ws held

shares_nothing : (w v : WriteSet) → normalized_non_empty w.paths ≡ [] → SharePath w v → ⊥
shares_nothing w v e (p, q, m, n, meet) = nothing (subst (Memᴰ p) e m)
  where
    nothing : Memᴰ p [] → ⊥
    nothing h = elim h [ ]

withholds_iff :
    (job_id : Text) (write_set_of : Text → Option WriteSet) (r : Reservation)
    → let (ws, declared) = candidate_write_set job_id write_set_of in
      (withholds ws declared r ≡ true) ↔ KeepsOut r.write_set (write_set_of job_id)
unfolding withholds candidate_write_set
withholds_iff job_id write_set_of r = elim (Option-cases (write_set_of job_id)) [
  | inl e ↦ rw (candidate_write_set, e) (is_wide_iff r.write_set)
  | inr (ws, e) ↦
      rw (candidate_write_set, e)
        (ground (
          arith,
          overlaps_iff ws r.write_set,
          is_wide_iff r.write_set,
          is_wide_iff ws,
          no_paths_iff (normalized_non_empty ws.paths),
          shares_nothing ws r.write_set,
        ))
]

-- No other job's reservation keeps the candidate out.
abbrev pub Unblocked : List Reservation → (Text → Option WriteSet) → Text → Type 0
Unblocked active write_set_of job_id =
    (r : Reservation)
    → Memᴰ r active
    → r.job_id ≢ job_id
    → ¬ KeepsOut r.write_set (write_set_of job_id)

module _ (job_id : Text) (ws : WriteSet) (declared : Bool) where
  none_blocking :
      (active : List Reservation)
      → blocking_reservation job_id ws declared active ≡ none
      → (r : Reservation) → Memᴰ r active
      → r.job_id ≢ job_id
      → withholds ws declared r ≡ false
  unfolding blocking_reservation
  none_blocking [] h s m n = elim m [ ]
  none_blocking (r ∷ active) h s (Memᴰ.head e) n =
      subst (λ x. withholds ws declared x ≡ false) (sym e)
        (ground (arith, eq_of_text_eq r.job_id job_id, subst (λ x. x.job_id ≢ job_id) e n))
  none_blocking (r ∷ active) h s (Memᴰ.tail m) n = none_blocking active (ground arith) s m n

  none_blocking_complete :
      (active : List Reservation)
      → ((r : Reservation) → Memᴰ r active → r.job_id ≢ job_id → withholds ws declared r ≡ false)
      → blocking_reservation job_id ws declared active ≡ none
  unfolding blocking_reservation
  none_blocking_complete [] free = refl
  none_blocking_complete (r ∷ active) free =
      let rest = none_blocking_complete active (λ s m. free s (Memᴰ.tail m)) in
      ground (arith, rest, free r (Memᴰ.head refl), text_eq_iff r.job_id job_id)

  some_blocking :
      (active : List Reservation) (holder : Text)
      → blocking_reservation job_id ws declared active ≡ some holder
      → (r : Reservation) × Memᴰ r active
        × (r.job_id ≡ holder)
        × (holder ≢ job_id)
        × (withholds ws declared r ≡ true)
  unfolding blocking_reservation
  some_blocking [] holder h = absurd (ground arith)
  some_blocking (r ∷ active) holder h = elim (Bool-cases (text_eq r.job_id job_id)) [
    | inl own ↦
        let (s, m, same, n, w) = some_blocking active holder (rw own at h) in
        (s, Memᴰ.tail m, same, n, w)
    | inr other ↦ elim (Bool-cases (withholds ws declared r)) [
      | inl w ↦
          let same : r.job_id ≡ holder = ground arith in
          (
            r,
            Memᴰ.head refl,
            same,
            λ e. absurd (ground (arith, (text_eq_iff r.job_id job_id).1 (same ∙ e))),
            w,
          )
      | inr w ↦
          let (s, m, same, n, v) = some_blocking active holder (rw (other, w) at h) in
          (s, Memᴰ.tail m, same, n, v)
    ]
  ]

stays_iff :
    (active : List Reservation) (write_set_of : Text → Option WriteSet) (c : Candidate)
    → (stays active write_set_of c ≡ true) ↔ (blocked_by c.job_id active write_set_of ≡ none)
unfolding stays reservation_conflicts blocked_by
stays_iff active write_set_of c = ground arith

nothing_blocks :
    (job_id : Text) (write_set_of : Text → Option WriteSet)
    → blocked_by job_id [] write_set_of ≡ none
unfolding blocked_by blocking_reservation
nothing_blocks job_id write_set_of = refl

mem_filter_iff :
    (cands : List Candidate) (active : List Reservation) (write_set_of : Text → Option WriteSet)
    (c : Candidate)
    → Memᴰ c cands
    → Memᴰ c (reservation_filter cands active write_set_of)
      ↔ (blocked_by c.job_id active write_set_of ≡ none)
unfolding reservation_filter
mem_filter_iff cands [] write_set_of c m = (λ n. nothing_blocks c.job_id write_set_of, λ e. m)
mem_filter_iff cands (r ∷ active) write_set_of c m =
    let test = stays (r ∷ active) write_set_of in
    let iff = stays_iff (r ∷ active) write_set_of c in
    (λ n. iff.0 (keep-mem test c cands n).1, λ e. mem-keep test c cands m (iff.1 e))

-- A candidate is withheld for a reason. The filter lets exactly the candidates through that no other
-- job's reservation keeps out, and for each candidate that it drops `BlockedBy` names a holder of an
-- active reservation, another job's, that keeps it out. A reservation that is wide, by its flag or by
-- naming no path, keeps everybody out; another one keeps out the candidates whose entry is declared
-- wide or has a path that is one of its paths, or lies under one, or has one under it.
pub reservation_filter-exact :
    (cands : List Candidate) (active : List Reservation) (write_set_of : Text → Option WriteSet)
    (c : Candidate)
    → Memᴰ c cands
    → (Memᴰ c (reservation_filter cands active write_set_of)
        ↔ Unblocked active write_set_of c.job_id)
      × (Memᴰ c (reservation_filter cands active write_set_of)
          ⊎ ((r : Reservation) × Memᴰ r active
              × (blocked_by c.job_id active write_set_of ≡ some r.job_id)
              × (r.job_id ≢ c.job_id)
              × KeepsOut r.write_set (write_set_of c.job_id)))
unfolding blocked_by
reservation_filter-exact cands active write_set_of c m =
    let job = c.job_id in
    let (ws, declared) = candidate_write_set job write_set_of in
    let iff = mem_filter_iff cands active write_set_of c m in
    (
      (
        λ n r k other out.
            let free = none_blocking job ws declared active (iff.0 n) r k other in
            absurd (ground (arith, (withholds_iff job write_set_of r).1 out)),
        λ free. iff.1 (
            none_blocking_complete job ws declared active (λ r k other.
              elim (Bool-cases (withholds ws declared r)) [
                | inr stays_out ↦ stays_out
                | inl w ↦ absurd (free r k other ((withholds_iff job write_set_of r).0 w))
              ])),
      ),
      elim (Option-cases (blocked_by job active write_set_of)) [
        | inl e ↦ inl (iff.1 e)
        | inr (holder, e) ↦
            let (r, n, same, other, w) = some_blocking job ws declared active holder e in
            inr (r, n, ground arith, ground arith, (withholds_iff job write_set_of r).0 w)
      ],
    )
