-- ===== src/Store/Lifecycle/Leases.antt =====
-- The rows of `leases` of internal/store against the job that they audit.
use flowbee.Base.{
  ◌≡◌, refl, ◌∙◌, true, false, List, [], ◌∷◌, ◌++◌, none, ℕ, ◌+◌, ◌≤◌, ◌<◌, arith, if◌then◌else◌,
}
use flowbee.Base.Text.{Text}
use flowbee.Store.Tables.{Tables, LeaseRow, is_open, end_lease, close_lease}
use flowbee.Store.Lifecycle.Soundness.{IsSound}
use flowbee.Store.Lifecycle.Effects.{Effect, keeps, grants, ends, active, epoch_of}
use flowbee.Store.Lifecycle.Fences.{Step-Effect}
use flowbee.Store.Lifecycle.Steps.{Reach, here, next, Reach-IsSound}

abbrev pub AllRows : (LeaseRow → Type 0) → List LeaseRow → Type 0
AllRows P [] = Unit
AllRows P (r ∷ rs) = P r × AllRows P rs

abbrev pub open_rows : List LeaseRow → ℕ
open_rows [] = 0
open_rows (r ∷ rs) = let rest = open_rows rs in if is_open r then rest + 1 else rest

-- The epochs rise from row to row up to `e`, and only a row of `e` may be open.
abbrev pub Rising : ℕ → List LeaseRow → Type 0
Rising e [] = Unit
Rising e (r ∷ rs) =
    (r.lease_epoch ≤ e)
    × (is_open r ≡ true → r.lease_epoch ≡ e)
    × AllRows (λ s. r.lease_epoch < s.lease_epoch) rs
    × Rising e rs

AllRows-snoc :
    (P : LeaseRow → Type 0) (rs : List LeaseRow) (r : LeaseRow)
    → AllRows P rs
    → P r
    → AllRows P (rs ++ r ∷ [])
AllRows-snoc P [] r a p = (p, tt)
AllRows-snoc P (s ∷ rs) r (q, a) p = (q, AllRows-snoc P rs r a p)

open_rows-zero :
    (r : LeaseRow) (rs : List LeaseRow)
    → open_rows (r ∷ rs) ≡ 0
    → (is_open r ≡ false) × (open_rows rs ≡ 0)
open_rows-zero r rs z = ground arith

Rising-snoc :
    (e : ℕ) (rs : List LeaseRow) (r : LeaseRow)
    → Rising e rs
    → open_rows rs ≡ 0
    → r.lease_epoch ≡ e + 1
    → Rising (e + 1) (rs ++ r ∷ [])
Rising-snoc e [] r h z n = (omega arith, λ o. n, tt, tt)
Rising-snoc e (s ∷ rs) r (b, o, a, h) z n =
    let (closed, rest) = open_rows-zero s rs z in
    (
      omega arith,
      λ opened. absurd (ground (arith, opened, closed)),
      AllRows-snoc (λ x. s.lease_epoch < x.lease_epoch) rs r a (omega arith),
      Rising-snoc e rs r h rest n,
    )

open_rows-snoc :
    (rs : List LeaseRow) (r : LeaseRow)
    → open_rows rs ≡ 0
    → is_open r ≡ true
    → open_rows (rs ++ r ∷ []) ≡ 1
open_rows-snoc [] r z o = rw o refl
open_rows-snoc (s ∷ rs) r z o = ground (arith, open_rows-snoc rs r)

end_lease-epoch :
    (e : ℕ) (why : Text) (r : LeaseRow) → (end_lease e why r).lease_epoch ≡ r.lease_epoch
unfolding end_lease
end_lease-epoch e why r = ground arith

-- A row that is open ends at its epoch, and no other row changes its openness.
end_lease-closed :
    (e : ℕ) (why : Text) (r : LeaseRow)
    → (is_open r ≡ true → r.lease_epoch ≡ e)
    → is_open (end_lease e why r) ≡ false
unfolding end_lease is_open
end_lease-closed e why r o = ground arith

AllRows-close :
    (n e : ℕ) (why : Text) (rs : List LeaseRow)
    → AllRows (λ s. n < s.lease_epoch) rs
    → AllRows (λ s. n < s.lease_epoch) (close_lease e why rs)
unfolding close_lease
AllRows-close n e why [] a = tt
AllRows-close n e why (r ∷ rs) (p, a) = (rw (end_lease-epoch e why r) p, AllRows-close n e why rs a)

Rising-close :
    (e e' : ℕ) (why : Text) (rs : List LeaseRow)
    → e ≤ e'
    → Rising e rs
    → Rising e' (close_lease e why rs) × (open_rows (close_lease e why rs) ≡ 0)
unfolding close_lease
Rising-close e e' why [] n h = (tt, refl)
Rising-close e e' why (r ∷ rs) n (b, o, a, h) =
    let closed = end_lease-closed e why r o in
    let same = end_lease-epoch e why r in
    let (rest, z) = Rising-close e e' why rs n h in
    (
      (
        rw same (omega arith),
        λ opened. absurd (ground (arith, opened, closed)),
        rw same (AllRows-close r.lease_epoch e why rs a),
        rest,
      ),
      rw closed z,
    )

-- The audit of a job: its rows have rising epochs up to the job's, and exactly one row is open, of that
-- epoch, while a lease is held, and none otherwise.
pub record IsAudited (db : Tables) : Type 0 where
  pub rising : Rising (epoch_of db) db.leases
  pub held : open_rows db.leases ≡ (if active db then 1 else 0)

open_of_null : (r : LeaseRow) → r.end_reason ≡ none → is_open r ≡ true
unfolding is_open
open_of_null r q = rw q refl

Effect-IsAudited : (db db' : Tables) → Effect db db' → IsAudited db → IsAudited db'
Effect-IsAudited db db' (keeps n st l) c = record {
  rising = rw (n, l) c.rising;
  held = rw (st, l) c.held;
}
Effect-IsAudited db db' (grants r idle busy n f q l) c =
    let none_open : open_rows db.leases ≡ 0 = c.held ∙ rw idle refl in
    record {
      rising = rw (n, l) (Rising-snoc (epoch_of db) db.leases r c.rising none_open f);
      held = rw (busy, l) (open_rows-snoc db.leases r none_open (open_of_null r q));
    }
Effect-IsAudited db db' (ends why busy idle n l) c =
    let (rises, z) =
      Rising-close (epoch_of db) (epoch_of db') why db.leases (ground arith) c.rising in
    record { rising = rw l rises; held = rw (idle, l) z }

-- The lease table audits the job. After any sequence of transactions that starts at a sound build whose
-- audit is right, the rows of leases have rising epochs up to the job's, so no epoch is granted twice,
-- and exactly one of them is open while a worker holds the job, at the job's epoch, and none otherwise.
pub Reach-IsAudited :
    (sha256 : Text → Text) (db db' : Tables)
    → IsSound db.store
    → IsAudited db
    → Reach sha256 db db'
    → IsAudited db'
Reach-IsAudited sha256 db db' s c here = c
Reach-IsAudited sha256 db db' s c (next r st) =
    let (_, t) = Reach-IsSound sha256 db _ s r in
    Effect-IsAudited _ db' (Step-Effect sha256 t st) (Reach-IsAudited sha256 db _ s c r)
