-- ===== src/Store/Lifecycle/Governor.antt =====
-- The governor of internal/store/liveness.go: a build is not killed and re-armed for ever.
use flowbee.Base.{ℕ, if◌then◌else◌, ◌&&◌, ◌+◌, ◌≡◌, ◌⊎◌, Bool, true, false, not, List, [], ◌∷◌}
use flowbee.Base.Text.{Text}
use flowbee.Job.State.{State}
use flowbee.Engine.Types.{LivenessVerdict, Transition}
use flowbee.Store.Tables.{Tables}
use flowbee.Store.Watch.{
  LivenessConfig, LivenessResult, is_needs_human, governor_reached, evaluate_liveness, rungs_at,
  attempts_exhausted, fire_lease_deadline,
}
use flowbee.Store.Lifecycle.Steps.{Step, stalls, expires}
use flowbee.Store.Lifecycle.Stalls.{stalls_of}

-- A decision of the ladder that moves the job elsewhere than to a human counts one stall, and the governor
-- has not been reached.
abbrev Counts : LivenessVerdict → List Transition → Type 0
Counts l [] = Unit
Counts l (t ∷ ts) =
    (t.stall_revocations_delta ≡ 1)
    × (is_needs_human t.to ≡ false → l.governor_ceiling_reached ≡ false)

-- A kill that re-arms counts its stall, and the stalls stay below the ceiling.
abbrev Rearms : LivenessConfig → Tables → Tables × LivenessResult → Type 0
Rearms cfg db (db', r) =
    r.killed ≡ true
    → r.escalated ≡ false
    → (stalls_of db' ≡ stalls_of db + 1) × (governor_reached cfg db.store.job ≡ false)

abbrev verdict_at : LivenessConfig → Tables → ℕ → Bool → LivenessVerdict
verdict_at cfg db now breaker = record {
  rungs = rungs_at cfg db.live now breaker;
  governor_ceiling_reached = governor_reached cfg db.store.job;
  attempts_exhausted = attempts_exhausted db.store.job;
}

-- 1 for a kill that puts the job back to work, 0 for a survival and for a kill that hands it to a human.
abbrev pub rearmed_by : LivenessResult → ℕ
rearmed_by r = if r.killed && not r.escalated then 1 else 0

module _ (sha256 : Text → Text) where
  -- The re-arming kills of a transaction: the watcher's and the deadline timer's.
  abbrev pub rearmings : {db db' : Tables} → Step sha256 db db' → ℕ
  rearmings (stalls db cfg breaker now) = rearmed_by (evaluate_liveness sha256 cfg breaker now db).1
  rearmings (expires db cfg breaker now t) =
      rearmed_by (fire_lease_deadline sha256 cfg breaker now t db).1
  rearmings _ = 0

  -- A watcher or a timer of the transaction runs with that configuration.
  abbrev pub Uses : LivenessConfig → {db db' : Tables} → Step sha256 db db' → Type 0
  Uses cfg (stalls db c breaker now) = c ≡ cfg
  Uses cfg (expires db c breaker now t) = c ≡ cfg
  Uses cfg _ = Unit

  -- A run of transactions from `db` under one configuration, with the number of its re-arming kills.
  pub data Rearmed (cfg : LivenessConfig) (db : Tables) : ℕ → Tables → Type 0 where
    start : Rearmed cfg db 0 db
    after :
        {n : ℕ} {db' db'' : Tables}
        → Rearmed cfg db n db'
        → (s : Step sha256 db' db'') → Uses cfg s
        → Rearmed cfg db (n + rearmings s) db''

  -- What one transaction adds to the count.
  abbrev Bounded : LivenessConfig → ℕ → Tables → Tables → Type 0
  Bounded cfg n db db' =
      (n ≡ 0)
      ⊎ ((n ≡ 1) × (stalls_of db' ≡ stalls_of db + 1) × (governor_reached cfg db.store.job ≡ false))
