-- ===== src/Store/Lifecycle/Responses.antt =====
-- The stored responses of internal/store: a result or a review that is sent again is answered as before
-- and writes nothing, however long ago its answer was.
use flowbee.Base.{
  ℕ, ◌≡◌, refl, sym, ap, ◌∙◌, ◌⊎◌, inl, inr, false, List, [], ◌∷◌, ◌++◌, none, some, arith,
  Bool-cases, Option-cases,
}
use flowbee.Base.Text.{Text, is_empty, text_eq_refl}
use flowbee.Job.State.{State, review_pending}
use flowbee.Engine.Types.{Transition}
use flowbee.Store.Tables.{Tables, Response, committed}
use flowbee.Store.Result.{
  ResultParams, arm_no_eligible, finish_result, remember, cached_response, result_writes,
  fresh_result, store_result,
}
use flowbee.Store.Verdicts.{
  ReviewResultParams, ReviewInputs, review_writes, fresh_review, review_result,
}
use flowbee.Store.Lifecycle.Results.{store_result-cases, fresh_result-committed}
use flowbee.Store.Lifecycle.Judgements.{fresh_review-committed}
use flowbee.Store.Lifecycle.Reviews.{review_result-cases}

abbrev pub Responses : Type 0
Responses = List (Text × Response)

-- A step stores nothing, or one response behind the others.
abbrev pub Adds : Responses → Responses → Type 0
Adds rs rs' = (rs' ≡ rs) ⊎ ((key : Text) × (r : Response) × (rs' ≡ rs ++ (key, r) ∷ []))

pub remember-Adds : (key : Text) (r : Response) (rs : Responses) → Adds rs (remember key r rs)
unfolding remember
remember-Adds key r rs = elim (Bool-cases (is_empty key)) [
  | inl e ↦ rw e (inl refl)
  | inr e ↦ rw e (inr (key, r, refl))
]

pub cached-snoc :
    (key k : Text) (r v : Response) (rs : Responses)
    → cached_response key rs ≡ some r
    → cached_response key (rs ++ (k, v) ∷ []) ≡ some r
unfolding cached_response
cached-snoc key k r v [] h = absurd (ground arith)
cached-snoc key k r v ((l, w) ∷ rs) h = ground (arith, cached-snoc key k r v rs)

cached-last :
    (key : Text) (r : Response) (rs : Responses)
    → cached_response key rs ≡ none
    → cached_response key (rs ++ (key, r) ∷ []) ≡ some r
unfolding cached_response
cached-last key r [] h = rw (text_eq_refl key) refl
cached-last key r ((l, w) ∷ rs) h = ground (arith, cached-last key r rs)

pub cached-remember :
    (key : Text) (r : Response) (rs : Responses)
    → is_empty key ≡ false
    → cached_response key rs ≡ none
    → cached_response key (remember key r rs) ≡ some r
unfolding remember
cached-remember key r rs e h = rw e (cached-last key r rs h)

result_writes-responses :
    (delay : ℕ) (p : ResultParams) (db db' : Tables) (ts : List Transition) (final : State)
    (r : Response)
    → result_writes delay p db ts final ≡ committed (db', r)
    → db'.responses ≡ remember p.idempotency_key r db.responses
unfolding result_writes finish_result
result_writes-responses delay p db db' ts review_pending r h =
    elim (Option-cases
      (arm_no_eligible delay db.store.job.id db.store.job.lease_epoch p.now db.timers)) [
        | inl e ↦ absurd (ground arith)
        | inr (timers, e) ↦ ground arith
      ]
result_writes-responses delay p db db' ts _ r h = ground arith

pub fresh_result-responses :
    (sha256 : Text → Text) (delay : ℕ) (p : ResultParams) (db db' : Tables) (r : Response)
    → fresh_result sha256 delay p db ≡ committed (db', r)
    → db'.responses ≡ remember p.idempotency_key r db.responses
fresh_result-responses sha256 delay p db db' r fresh =
    let (_, _, writes) = fresh_result-committed sha256 delay p db db' r fresh in
    result_writes-responses delay p db db' _ _ r writes

pub fresh_review-responses :
    (sha256 : Text → Text) (p : ReviewResultParams) (i : ReviewInputs) (db db' : Tables)
    (r : Response)
    → fresh_review sha256 p i db ≡ committed (db', r)
    → db'.responses ≡ remember p.idempotency_key r db.responses
unfolding review_writes
fresh_review-responses sha256 p i db db' r fresh =
    let (_, _, t, j, e, a) = fresh_review-committed sha256 p i db db' r fresh in
    ap (λ d. d.responses) e ∙ ap (λ x. remember p.idempotency_key x db.responses) (sym a)

pub store_result-responses :
    (sha256 : Text → Text) (delay : ℕ) (p : ResultParams) (db db' : Tables) (r : Response)
    → store_result sha256 delay p db ≡ committed (db', r)
    → (db'.responses ≡ db.responses) ⊎ (db'.responses ≡ remember p.idempotency_key r db.responses)
store_result-responses sha256 delay p db db' r h =
    elim (store_result-cases sha256 delay p db db' r h) [
      | inl same ↦ inl (ap (λ d. d.responses) same)
      | inr fresh ↦ inr (fresh_result-responses sha256 delay p db db' r fresh)
    ]

pub review_result-responses :
    (sha256 : Text → Text) (p : ReviewResultParams) (i : ReviewInputs) (db db' : Tables)
    (r : Response)
    → review_result sha256 p i db ≡ committed (db', r)
    → (db'.responses ≡ db.responses) ⊎ (db'.responses ≡ remember p.idempotency_key r db.responses)
review_result-responses sha256 p i db db' r h = elim (review_result-cases sha256 p i db db' r h) [
  | inl same ↦ inl (ap (λ d. d.responses) same)
  | inr fresh ↦ inr (fresh_review-responses sha256 p i db db' r fresh)
]
