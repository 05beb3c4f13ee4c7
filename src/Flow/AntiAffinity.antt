-- ===== src/Flow/AntiAffinity.antt =====
-- The loop of `checkAntiAffinity` of internal/flow/resolve.go.
use flowbee.Base.{
  ◌≡◌, inl, inr, Bool, true, false, not, ◌&&◌, List, [], ◌∷◌, none, arith, Bool-cases, Option-cases,
}
use flowbee.Base.Text.{Text, is_empty, text_eq, text_eq_iff}
use flowbee.Flow.{ResolvedActor, ok}
use flowbee.Flow.Resolve.{first_lens, check_from}

abbrev pub AllOf : {A : Type 0} → (A → Type 0) → List A → Type 0
AllOf P [] = Unit
AllOf P (a ∷ xs) = P a × AllOf P xs

-- Two reviewers with different ids, and with different families where that is asked for and known.
abbrev pub Differs : Bool → ResolvedActor → ResolvedActor → Type 0
Differs families a b =
    (text_eq a.identity.id b.identity.id ≡ false)
    × ((families && not (is_empty a.identity.model_family)) ≡ true
        → text_eq a.identity.model_family b.identity.model_family ≡ false)

abbrev pub Independent : Bool → List ResolvedActor → Type 0
Independent families [] = Unit
Independent families (a ∷ xs) = AllOf (Differs families a) xs × Independent families xs

abbrev Fresh : Bool → List (Text × Text) → List (Text × Text) → ResolvedActor → Type 0
Fresh families ids fams a =
    (first_lens ids a.identity.id ≡ none)
    × ((families && not (is_empty a.identity.model_family)) ≡ true
        → first_lens fams a.identity.model_family ≡ none)

first_lens-new :
    (k lens key : Text) (seen : List (Text × Text))
    → first_lens ((k, lens) ∷ seen) key ≡ none
    → (text_eq k key ≡ false) × (first_lens seen key ≡ none)
unfolding first_lens
first_lens-new k lens key seen h = ground arith

-- What is fresh against one more actor is fresh, and differs from that actor.
Fresh-soft :
    (families : Bool) (a : ResolvedActor) (ids fams : List (Text × Text)) (b : ResolvedActor)
    → (families && not (is_empty a.identity.model_family)) ≡ false
    → Fresh families ((a.identity.id, a.lens) ∷ ids) fams b
    → Fresh families ids fams b × Differs families a b
Fresh-soft families a ids fams b soft (i, f) =
    let (other, new) = first_lens-new a.identity.id a.lens b.identity.id ids i in
    ((new, f), (other, λ hard. absurd (ground (arith, soft, hard))))

Fresh-hard :
    (families : Bool) (a : ResolvedActor) (ids fams : List (Text × Text)) (b : ResolvedActor)
    → (families && not (is_empty a.identity.model_family)) ≡ true
    → Fresh families ((a.identity.id, a.lens) ∷ ids) ((a.identity.model_family, a.lens) ∷ fams) b
    → Fresh families ids fams b × Differs families a b
Fresh-hard families a ids fams b hard (i, f) =
    let fam = a.identity.model_family in
    let (other, new) = first_lens-new a.identity.id a.lens b.identity.id ids i in
    (
      (new, λ k. (first_lens-new fam a.lens b.identity.model_family fams (f k)).1),
      (
        other,
        λ _. elim (Bool-cases (families && not (is_empty b.identity.model_family))) [
          | inl k ↦ (first_lens-new fam a.lens b.identity.model_family fams (f k)).0
          | inr k ↦ ground (arith, hard, k, text_eq_iff fam b.identity.model_family)
        ],
      ),
    )

AllOf-split :
    {A : Type 0} (P Q R : A → Type 0) (f : (a : A) → P a → Q a × R a) (xs : List A)
    → AllOf P xs
    → AllOf Q xs × AllOf R xs
AllOf-split P Q R f [] h = (tt, tt)
AllOf-split P Q R f (a ∷ xs) (p, h) =
    let (q, r) = f a p in let (qs, rs) = AllOf-split P Q R f xs h in ((q, qs), (r, rs))

pub check_from-Independent :
    (stage : Text) (families : Bool) (ids fams : List (Text × Text)) (xs : List ResolvedActor)
    → check_from stage families ids fams xs ≡ ok tt
    → AllOf (Fresh families ids fams) xs × Independent families xs
unfolding check_from
check_from-Independent stage families ids fams [] h = (tt, tt)
check_from-Independent stage families ids fams (a ∷ xs) h =
    let i = a.identity in
    elim (Option-cases (first_lens ids i.id)) [
      | inr (prev, e) ↦ absurd (ground (arith, rw (check_from, e) at h))
      | inl new ↦ elim (Bool-cases (families && not (is_empty i.model_family))) [
        | inr soft ↦
            let (fresh, apart) =
              check_from-Independent stage families ((i.id, a.lens) ∷ ids) fams xs
                (rw (check_from, new, soft) at h) in
            let (kept, differ) =
              AllOf-split (Fresh families ((i.id, a.lens) ∷ ids) fams) (Fresh families ids fams)
                (Differs families a) (λ b. Fresh-soft families a ids fams b soft) xs fresh in
            (((new, λ hard. absurd (ground (arith, soft, hard))), kept), (differ, apart))
        | inl hard ↦ elim (Option-cases (first_lens fams i.model_family)) [
          | inr (prev, e) ↦ absurd (ground (arith, rw (check_from, new, hard, e) at h))
          | inl unused ↦
              let ids' = (i.id, a.lens) ∷ ids in
              let fams' = (i.model_family, a.lens) ∷ fams in
              let (fresh, apart) =
                check_from-Independent stage families ids' fams' xs
                  (rw (check_from, new, hard, unused) at h) in
              let (kept, differ) =
                AllOf-split (Fresh families ids' fams') (Fresh families ids fams)
                  (Differs families a) (λ b. Fresh-hard families a ids fams b hard) xs fresh in
              (((new, λ _. unused), kept), (differ, apart))
        ]
      ]
    ]
