-- ===== src/Provisioning/Statuses.antt =====
-- The state of a command depends on which statuses its legal entities have (Provisioning/CommandState.antt).
use baobab_erp.Common.{
  String, string_eq, eq_law, ◌≡◌, refl, sym, ap, subst, ◌∙◌, Bool, true, false, not, List, [], ◌∷◌,
  ◌++◌, ◌==◌, arith, any, all, is_empty, Bool-cases, inl, inr,
}
use baobab_erp.Provisioning.CommandState.{
  contains, known, done, in_flight, settling, not_started, derive,
}

-- a test that holds of every status of a list holds of each that it contains
all-contains :
    (p : String → Bool) (xs : List String) (s : String)
    → all p xs ≡ true
    → contains xs s ≡ true
    → p s ≡ true
all-contains p [] s h c = cc c
all-contains p (x ∷ xs) s h c = elim (Bool-cases (x == s)) [
  | inl e ↦ subst (λ y. p y ≡ true) ((eq_law x s).0 e) (ground arith)
  | inr e ↦ all-contains p xs s (ground arith) (ground arith)
]

module _ (p : String → Bool) (xs : List String) where
  all-within : (ys : List String) → all p xs ≡ true → all (contains xs) ys ≡ true → all p ys ≡ true
  all-within [] h c = refl
  all-within (y ∷ ys) h c =
      let here : p y ≡ true = all-contains p xs y h (ground arith) in
      let rest : all p ys ≡ true = all-within ys h (ground arith) in ground arith

covers :
    (xs ys : List String)
    → ((s : String) → contains xs s ≡ true → contains ys s ≡ true)
    → all (contains ys) xs ≡ true
covers [] ys h = refl
covers (y ∷ xs) ys h =
    let here : contains ys y ≡ true = h y (ground (arith, (eq_law y y).1 refl)) in
    let rest : all (contains ys) xs ≡ true = covers xs ys (λ s q. h s (ground (arith, q))) in
    ground arith

any-not : (p : String → Bool) (xs : List String) → any p xs ≡ not (all (λ s. not (p s)) xs)
any-not p [] = refl
any-not p (x ∷ xs) = ground (arith, any-not p xs)

is_empty-all : (xs : List String) → is_empty xs ≡ all (λ _. false) xs
is_empty-all [] = refl
is_empty-all (x ∷ xs) = refl

module _ (xs ys : List String) (same : (s : String) → contains xs s ≡ contains ys s) where
  all-same : (p : String → Bool) → all p xs ≡ all p ys
  all-same p = elim (Bool-cases (all p xs)) [
    | inl x ↦ x ∙ sym (all-within p xs ys x (covers ys xs (λ s q. same s ∙ q)))
    | inr x ↦ elim (Bool-cases (all p ys)) [
      | inl y ↦ all-within p ys xs y (covers xs ys (λ s q. sym (same s) ∙ q)) ∙ sym y
      | inr y ↦ x ∙ sym y
    ]
  ]

  any-same : (p : String → Bool) → any p xs ≡ any p ys
  any-same p = any-not p xs ∙ ap not (all-same (λ s. not (p s))) ∙ sym (any-not p ys)

  -- Legal entities with the same statuses, in any order and number, give the same state.
  derive-same : derive xs ≡ derive ys
  unfolding derive
  derive-same =
      let empty : is_empty xs ≡ is_empty ys =
        is_empty-all xs ∙ all-same (λ _. false) ∙ sym (is_empty-all ys) in
      rw (
        empty,
        all-same (contains known),
        same "failed",
        all-same (contains done),
        any-same (contains in_flight),
        all-same (contains not_started),
        all-same (contains ("validating" ∷ not_started)),
        all-same (contains (done ++ settling)),
      )
