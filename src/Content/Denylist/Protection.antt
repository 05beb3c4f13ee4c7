-- ===== src/Content/Denylist/Protection.antt =====
-- When the denylist of internal/content/content.go is clear.
use flowbee.Base.{
  ◌≡◌, ◌≢◌, ◌⊎◌, ◌↔◌, refl, inl, inr, subst, Bool, true, false, ◌||◌, if◌then◌else◌, List, [], ◌∷◌,
  ◌++◌, arith, Bool-cases,
}
use mathlib.Core.List.{Memᴰ}
use flowbee.Base.Text.{Text, bytes, text_eq, text_lt, is_empty, is_empty_iff}
use flowbee.Base.Strings.{lower}
use flowbee.Base.Lists.{any, any_sound, any_complete}
use flowbee.Base.Sorting.{sort_stable, mem-sort_stable}
use flowbee.Content.Paths.{normalize_path}
use flowbee.Content.Denylist.{
  Matcher, deny_matchers, Hits, hit, add_hit, add_classes, add_path, hits_from, matches_any_prefix,
  matches_class, is_denylisted, denylist_hits_with,
}

-- Nothing is marked as seen before there is a hit.
abbrev IsMarked : Hits → Type 0
IsMarked s = s.out ≡ [] → s.seen ≡ []

append_nonempty : (xs : List Text) (x : Text) → xs ++ (x ∷ []) ≢ []
append_nonempty [] x e = absurd (ground arith)
append_nonempty (y ∷ xs) x e = absurd (ground arith)

add_hit-nonempty : (class np : Text) (s : Hits) → IsMarked s → (add_hit class np s).out ≢ []
unfolding add_hit any
add_hit-nonempty class np s i e =
    elim (Bool-cases (any (text_eq (np ++ (bytes "|" ++ class))) s.seen)) [
      | inl h ↦
          let empty = i (rw h at e) in
          absurd (
            ground
              (arith, subst (λ l. any (text_eq (np ++ (bytes "|" ++ class))) l ≡ true) empty h))
      | inr h ↦ append_nonempty s.out (hit class np) (rw h at e)
    ]

-- Between two moments of the loop: it is clear at the second exactly when it was clear before and `b` is false.
record Grows (s s' : Hits) (b : Bool) : Type 0 where
  marked : IsMarked s'
  clear : (s'.out ≡ []) ↔ ((s.out ≡ []) × (b ≡ false))

stays-Grows : (s : Hits) → IsMarked s → Grows s s false
stays-Grows s i = record { marked = i; clear = ground arith }

hits-Grows : (class np : Text) (s : Hits) → IsMarked s → Grows s (add_hit class np s) true
hits-Grows class np s i =
    let full = add_hit-nonempty class np s i in
    record {
      marked = λ e. absurd (full e);
      clear = (λ e. absurd (full e), λ (e, f). absurd (ground arith));
    }

chain-Grows : (s s' s'' : Hits) (b c : Bool) → Grows s s' b → Grows s' s'' c → Grows s s'' (b || c)
chain-Grows s s' s'' b c g h = record {
  marked = h.marked;
  clear = ground (arith, g.clear, h.clear);
}

choose-Grows :
    (b : Bool) (class np : Text) (s : Hits)
    → IsMarked s
    → Grows s (if b then add_hit class np s else s) b
choose-Grows true class np s i = hits-Grows class np s i
choose-Grows false class np s i = stays-Grows s i

add_classes-Grows :
    (ms : List Matcher) (np : Text) (s : Hits)
    → IsMarked s
    → Grows s (add_classes ms np s) (matches_class ms (lower np))
unfolding add_classes matches_class any
add_classes-Grows [] np s i = stays-Grows s i
add_classes-Grows (m ∷ ms) np s i =
    let first = choose-Grows (m.match (lower np)) m.name np s i in
    chain-Grows s _ _ (m.match (lower np)) _ first (add_classes-Grows ms np _ first.marked)

-- What a touched path, normalized, matches.
abbrev pub is_protected : List Text → Text → Bool
is_protected extra np =
    if is_empty np
    then false
    else matches_class deny_matchers (lower np) || matches_any_prefix (lower np) extra

add_path-Grows :
    (extra : List Text) (np : Text) (s : Hits)
    → IsMarked s
    → Grows s (add_path extra np s) (is_protected extra np)
unfolding add_path
add_path-Grows extra np s i = elim (Bool-cases (is_empty np)) [
  | inl e ↦ rw e (stays-Grows s i)
  | inr e ↦
      let classed = add_classes-Grows deny_matchers np s i in
      rw e (
        chain-Grows s _ _ _ (matches_any_prefix (lower np) extra) classed (
          choose-Grows (matches_any_prefix (lower np) extra) (bytes "configured") np
            (add_classes deny_matchers np s) classed.marked))
]

hits_from-Grows :
    (extra touched : List Text) (s : Hits)
    → IsMarked s
    → Grows s (hits_from extra touched s) (any (λ t. is_protected extra (normalize_path t)) touched)
unfolding hits_from any
hits_from-Grows extra [] s i = stays-Grows s i
hits_from-Grows extra (t ∷ touched) s i =
    let first = add_path-Grows extra (normalize_path t) s i in
    chain-Grows s _ _ _ _ first (hits_from-Grows extra touched _ first.marked)

no_member : (x : Text) (xs : List Text) → xs ≡ [] → ¬ Memᴰ x xs
no_member x xs e m = elim (subst (Memᴰ x) e m) [ ]

sort_stable_empty : (xs : List Text) → (sort_stable text_lt xs ≡ []) ↔ (xs ≡ [])
unfolding sort_stable
sort_stable_empty [] = (λ e. refl, λ e. refl)
sort_stable_empty (x ∷ xs) = (
  λ e. absurd (no_member x _ e (mem-sort_stable text_lt x (x ∷ xs) (Memᴰ.head refl))),
  λ e. absurd (no_member x _ e (Memᴰ.head refl)),
)

any-false :
    (p : Text → Bool) (xs : List Text) → (any p xs ≡ false) ↔ ((x : Text) → Memᴰ x xs → p x ≡ false)
any-false p xs = (
  λ h x m. elim (Bool-cases (p x)) [
    | inl y ↦ absurd (ground (arith, any_complete p x xs m y))
    | inr n ↦ n
  ],
  λ h. elim (Bool-cases (any p xs)) [
    | inl y ↦ let (x, m, e) = any_sound p xs y in absurd (ground (arith, h x m))
    | inr n ↦ n
  ],
)

is_protected_iff :
    (extra : List Text) (t : Text)
    → (is_protected extra (normalize_path t) ≡ false) ↔ (
        (is_denylisted t ≡ false)
        × ((normalize_path t ≡ []) ⊎ (matches_any_prefix (lower (normalize_path t)) extra ≡ false)))
unfolding is_denylisted
is_protected_iff extra t = ground (arith, is_empty_iff (normalize_path t))

-- The denylist is clear exactly when every touched path is: no shipped class holds it, in lower
-- case, and no configured prefix covers it.
pub denylist_hits_with_clear :
    (touched extra : List Text)
    → (denylist_hits_with touched extra ≡ []) ↔ (
        (t : Text)
        → Memᴰ t touched
        → (is_denylisted t ≡ false)
          × ((normalize_path t ≡ [])
              ⊎ (matches_any_prefix (lower (normalize_path t)) extra ≡ false)))
unfolding denylist_hits_with
denylist_hits_with_clear touched extra =
    let start : Hits = record { seen = []; out = [] } in
    let run = hits_from-Grows extra touched start (λ e. refl) in
    let none_protected = any-false (λ t. is_protected extra (normalize_path t)) touched in
    let sorted = sort_stable_empty (hits_from extra touched start).out in
    (
      λ e t m. (is_protected_iff extra t).0 (none_protected.0 (run.clear.0 (sorted.0 e)).1 t m),
      λ h.
          sorted.1
            (run.clear.1 (refl, none_protected.1 (λ t m. (is_protected_iff extra t).1 (h t m)))),
    )
