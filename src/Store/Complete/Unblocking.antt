-- ===== src/Store/Complete/Unblocking.antt =====
-- `CompleteJob` of internal/store/queries.go leaves nobody blocked on jobs that are done.
use flowbee.Base.{
  ◌≡◌, ◌≢◌, refl, sym, ap, ◌∙◌, subst, inl, inr, ℕ, true, false, not, List, [], ◌∷◌, Option, some,
  arith, Bool-cases, Option-cases, if◌then◌else◌,
}
use mathlib.Core.List.{Memᴰ}
use flowbee.Base.Lists.{any, any_sound, any_complete}
use flowbee.Base.Text.{Text, text_eq, text_eq_iff}
use flowbee.Job.State.{State, ready, blocked, done}
use flowbee.Job.Transition.{next}
use flowbee.Store.Row.{JobStore}
use flowbee.Store.Tables.{Timer, append}
use flowbee.Store.Complete.{
  Board, state_of, is_done, is_unsatisfied, has_unsatisfied_deps, completed_store, unblocked_store,
  complete_rows, is_blocked, is_freed, free_rows, arm_freed, next_of, complete_job,
}

-- Every blocked row of `rows` waits for a predecessor that is not done in `board`.
abbrev pub Waits : Board → Board → Type 0
Waits board [] = Unit
Waits board (st ∷ rows) =
    (is_blocked st.job.state ≡ true → has_unsatisfied_deps board st.job.blocked_by ≡ true)
    × Waits board rows

unsatisfied_cons :
    (st : JobStore) (rows : Board) (dep : Text)
    → is_unsatisfied (st ∷ rows) dep
      ≡ (if text_eq st.job.id dep then not (is_done st.job.state) else is_unsatisfied rows dep)
unfolding is_unsatisfied state_of
unsatisfied_cons st rows dep = elim (Bool-cases (text_eq st.job.id dep)) [
  | inl e ↦ rw (is_unsatisfied, state_of, e) refl
  | inr e ↦ rw (is_unsatisfied, state_of, e) refl
]

blocked_not_done : (s : State) → is_blocked s ≡ true → is_done s ≡ false
unfolding is_blocked is_done
blocked_not_done s h = ground (arith, h)

freed_blocked :
    (id : Text) (all : Board) (st : JobStore)
    → is_freed id all st ≡ true
    → is_blocked st.job.state ≡ true
unfolding is_freed
freed_blocked id all st h = ground (arith, h)

-- Replacing a row by one with its id that is done exactly when it was.
replaced_unsatisfied :
    (old new : JobStore) (rows rows' : Board) (dep : Text)
    → new.job.id ≡ old.job.id
    → is_done new.job.state ≡ is_done old.job.state
    → is_unsatisfied rows' dep ≡ is_unsatisfied rows dep
    → is_unsatisfied (new ∷ rows') dep ≡ is_unsatisfied (old ∷ rows) dep
replaced_unsatisfied old new rows rows' dep i d r =
    unsatisfied_cons new rows' dep ∙ rw (i, d, r) (sym (unsatisfied_cons old rows dep))

-- A job that is unblocked was not done and is not done.
free_rows-unsatisfied :
    (now : ℕ) (id : Text) (all rows : Board) (dep : Text)
    → is_unsatisfied (free_rows now id all rows) dep ≡ is_unsatisfied rows dep
unfolding free_rows unblocked_store append is_done
free_rows-unsatisfied now id all [] dep = refl
free_rows-unsatisfied now id all (st ∷ rows) dep =
    let further = free_rows-unsatisfied now id all rows dep in
    elim (Bool-cases (is_freed id all st)) [
      | inl e ↦ rw e (
          replaced_unsatisfied st (unblocked_store now st) rows (free_rows now id all rows) dep refl
            (sym (blocked_not_done st.job.state (freed_blocked id all st e))) further)
      | inr e ↦
          rw e (replaced_unsatisfied st st rows (free_rows now id all rows) dep refl refl further)
    ]

-- The completion of a job changes no other.
complete_rows-unsatisfied :
    (now : ℕ) (to : State) (id : Text) (rows : Board) (dep : Text)
    → text_eq id dep ≡ false
    → is_unsatisfied (complete_rows now to id rows) dep ≡ is_unsatisfied rows dep
unfolding complete_rows completed_store append
complete_rows-unsatisfied now to id [] dep h = refl
complete_rows-unsatisfied now to id (st ∷ rows) dep h =
    let rows' = complete_rows now to id rows in
    let further = complete_rows-unsatisfied now to id rows dep h in
    elim (Bool-cases (text_eq st.job.id id)) [
      | inr e ↦ rw e (replaced_unsatisfied st st rows rows' dep refl refl further)
      | inl e ↦
          let other : text_eq st.job.id dep ≡ false =
            ground (arith, e, h, text_eq_iff st.job.id id) in
          let old = unsatisfied_cons st rows dep in
          rw e (
            unsatisfied_cons (completed_store now to st) rows' dep
            ∙ rw (other, further) (sym (rw other at old)))
    ]

any-unsatisfied :
    (now : ℕ) (to : State) (id : Text) (rows : Board) (deps : List Text)
    → any (text_eq id) deps ≡ false
    → has_unsatisfied_deps (complete_rows now to id rows) deps ≡ has_unsatisfied_deps rows deps
unfolding has_unsatisfied_deps any
any-unsatisfied now to id rows [] h = refl
any-unsatisfied now to id rows (dep ∷ deps) h = elim (Bool-cases (text_eq id dep)) [
  | inl e ↦ absurd (ground (arith, h, e))
  | inr e ↦
      let rest = any-unsatisfied now to id rows deps (rw (any, e) at h) in
      rw (complete_rows-unsatisfied now to id rows dep e, rest) refl
]

freed-unsatisfied :
    (now : ℕ) (id : Text) (all rows : Board) (deps : List Text)
    → has_unsatisfied_deps (free_rows now id all rows) deps ≡ has_unsatisfied_deps rows deps
unfolding has_unsatisfied_deps any
freed-unsatisfied now id all rows [] = refl
freed-unsatisfied now id all rows (dep ∷ deps) =
    rw (free_rows-unsatisfied now id all rows dep, freed-unsatisfied now id all rows deps) refl

-- A row that does not name the completed job waits as it did.
completed_store-Waits :
    (now : ℕ) (id : Text) (board : Board) (st : JobStore)
    → (is_blocked st.job.state ≡ true → has_unsatisfied_deps board st.job.blocked_by ≡ true)
    → let st' = if text_eq st.job.id id then completed_store now done st else st in
      is_blocked st'.job.state ≡ true
      → any (text_eq id) st'.job.blocked_by ≡ false
      → has_unsatisfied_deps (complete_rows now done id board) st'.job.blocked_by ≡ true
unfolding completed_store append is_blocked
completed_store-Waits now id board st h = elim (Bool-cases (text_eq st.job.id id)) [
  | inl e ↦ rw e (λ b n. absurd (ground (arith, b)))
  | inr e ↦ rw e (λ b n. any-unsatisfied now done id board st.job.blocked_by n ∙ h b)
]

-- A blocked row that is not freed waits.
not_freed :
    (id : Text) (all : Board) (st : JobStore)
    → is_freed id all st ≡ false
    → is_blocked st.job.state ≡ true
    → (any (text_eq id) st.job.blocked_by ≡ false
        → has_unsatisfied_deps all st.job.blocked_by ≡ true)
    → has_unsatisfied_deps all st.job.blocked_by ≡ true
unfolding is_freed
not_freed id all st e b h = elim (Bool-cases (any (text_eq id) st.job.blocked_by)) [
  | inl named ↦ ground (arith, e, b, named)
  | inr other ↦ h other
]

-- One that does is freed, or waits for another one.
unblocked_store-Waits :
    (now : ℕ) (id : Text) (all : Board) (st : JobStore)
    → (is_blocked st.job.state ≡ true
        → any (text_eq id) st.job.blocked_by ≡ false
        → has_unsatisfied_deps all st.job.blocked_by ≡ true)
    → let st' = if is_freed id all st then unblocked_store now st else st in
      is_blocked st'.job.state ≡ true
      → has_unsatisfied_deps (free_rows now id all all) st'.job.blocked_by ≡ true
unfolding unblocked_store append is_blocked is_freed
unblocked_store-Waits now id all st h = elim (Bool-cases (is_freed id all st)) [
  | inl e ↦ rw e (λ b. absurd (ground (arith, b)))
  | inr e ↦
      rw e (λ b. freed-unsatisfied now id all all st.job.blocked_by ∙ not_freed id all st e b (h b))
]

free_rows-Waits :
    (now : ℕ) (id : Text) (board rows : Board)
    → Waits board rows
    → let all = complete_rows now done id board in
      Waits (free_rows now id all all) (free_rows now id all (complete_rows now done id rows))
unfolding complete_rows free_rows
free_rows-Waits now id board [] w = tt
free_rows-Waits now id board (st ∷ rows) (h, w) =
    let all = complete_rows now done id board in
    (
      unblocked_store-Waits now id all
          (if text_eq st.job.id id then completed_store now done st else st)
          (completed_store-Waits now id board st h),
      free_rows-Waits now id board rows w,
    )

-- Every predecessor is known and done.
abbrev pub AllDone : Board → List Text → Type 0
AllDone board deps = (dep : Text) → Memᴰ dep deps → state_of board dep ≡ some done

-- A row that is blocked by the completed job, itself another one, and whose predecessors are all done
-- in `board`, has become ready at `now`.
abbrev pub Released : ℕ → Text → Board → JobStore → JobStore → Type 0
Released now id board st st' =
    st.job.state ≡ blocked
    → Memᴰ id st.job.blocked_by
    → st.job.id ≢ id
    → AllDone board st.job.blocked_by
    → (st'.job.id ≡ st.job.id) × (st'.job.state ≡ ready) × (st'.job.enqueued_at ≡ now)

-- The same of every row, each against the row at its place after the completion.
abbrev pub Releases : ℕ → Text → Board → Board → Board → Type 0
Releases now id board [] rows' = Unit
Releases now id board (st ∷ rows) [] = ⊥
Releases now id board (st ∷ rows) (st' ∷ rows') =
    Released now id board st st' × Releases now id board rows rows'

all_satisfied :
    (board : Board) (deps : List Text)
    → AllDone board deps
    → has_unsatisfied_deps board deps ≡ false
unfolding has_unsatisfied_deps is_unsatisfied is_done
all_satisfied board deps h = elim (Bool-cases (any (is_unsatisfied board) deps)) [
  | inr none_waits ↦ none_waits
  | inl waits ↦
      let (dep, m, unmet) = any_sound (is_unsatisfied board) deps waits in
      let ended = h dep m in absurd (ground (arith, rw (is_unsatisfied, ended) at unmet))
]

freed-Released :
    (now : ℕ) (id : Text) (all : Board) (st : JobStore)
    → let st' = if text_eq st.job.id id then completed_store now done st else st in
      Released now id
        (free_rows now id all all)
        st
        (if is_freed id all st' then unblocked_store now st' else st')
unfolding unblocked_store append is_blocked is_freed
freed-Released now id all st b m other h =
    let away : text_eq st.job.id id ≡ false = ground (arith, text_eq_iff st.job.id id, other) in
    let named = any_complete (text_eq id) id st.job.blocked_by m ((text_eq_iff id id).1 refl) in
    let satisfied =
      sym (freed-unsatisfied now id all all st.job.blocked_by)
      ∙ all_satisfied (free_rows now id all all) st.job.blocked_by h in
    rw away (rw (is_freed, b, named, satisfied) (refl, refl, refl))

free_rows-Releases :
    (now : ℕ) (id : Text) (all rows : Board)
    → Releases now id
        (free_rows now id all all)
        rows
        (free_rows now id all (complete_rows now done id rows))
unfolding complete_rows free_rows
free_rows-Releases now id all [] = tt
free_rows-Releases now id all (st ∷ rows) =
    (freed-Released now id all st, free_rows-Releases now id all rows)

completed_done : (s : Option State) (to : State) → next_of s ≡ some to → to ≡ done
unfolding next_of next
completed_done s to h = ground (arith, h)

-- Nobody is left blocked on jobs that are done. If every blocked job waits for some predecessor that is
-- not done or not known, then so it is after a job completes. And each other job that was blocked by the
-- completed one and whose predecessors are all done then has become ready, its aging clock started.
pub complete_job-Waits :
    (delay now : ℕ) (id : Text) (board board' : Board) (timers timers' : List Timer)
    (ids : List Text)
    → Waits board board
    → complete_job delay id now board timers ≡ some (board', timers', ids)
    → Waits board' board' × Releases now id board' board board'
unfolding complete_job
complete_job-Waits delay now id board board' timers timers' ids w h =
    elim (Option-cases (next_of (state_of board id))) [
      | inl e ↦ absurd (ground (arith, rw (complete_job, e) at h))
      | inr (to, e) ↦
          let ended : next_of (state_of board id) ≡ some done =
            e ∙ ap some (completed_done (state_of board id) to e) in
          let all = complete_rows now done id board in
          elim (Option-cases (arm_freed delay now id all all timers)) [
            | inl f ↦ absurd (ground (arith, rw (complete_job, ended, f) at h))
            | inr (armed, f) ↦
                let same : free_rows now id all all ≡ board' =
                  ground (arith, rw (complete_job, ended, f) at h) in
                subst (λ b. Waits b b × Releases now id b board b) same
                  (free_rows-Waits now id board board w, free_rows-Releases now id all board)
          ]
    ]
