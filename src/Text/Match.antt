-- ===== src/Text/Match.antt =====
-- Matching by derivatives decides the language of a pattern (Text/Patterns.antt).
use baobab_erp.Common.{
  ℕ, ◌≡◌, refl, sym, ◌∙◌, ◌⊎◌, inl, inr, ◌↔◌, Bool, true, false, List, [], ◌∷◌, ◌++◌, arith,
  Bool-cases, subst, ap, if◌then◌else◌,
}
use baobab_erp.Text.Patterns.{
  Regex, none_of, eps, cls, seq, alt, star, in_class, join, either, nullable, deriv, match_codes,
}

-- zero or more words of a language, none of them empty
pub data Many (P : List ℕ → Type 0) : List ℕ → Type 0 where
  done : {s : List ℕ} → s ≡ [] → Many P s
  more : {s : List ℕ} (c : ℕ) (u v : List ℕ) → P (c ∷ u) → Many P v → s ≡ c ∷ (u ++ v) → Many P s

-- The language of a pattern, read off its form.
abbrev pub Lang : Regex → List ℕ → Type 0
Lang none_of s = ⊥
Lang eps s = s ≡ []
Lang (cls rs) s = (c : ℕ) × (in_class rs c ≡ true) × (s ≡ c ∷ [])
Lang (seq q r) s = (u : List ℕ) × (v : List ℕ) × Lang q u × Lang r v × (s ≡ u ++ v)
Lang (alt q r) s = Lang q s ⊎ Lang r s
Lang (star r) s = Many (Lang r) s

join_sound : (q r : Regex) (s : List ℕ) → Lang (join q r) s → Lang (seq q r) s
unfolding join
join_sound none_of r s h = absurd h
join_sound eps r s h = ([], s, refl, h, refl)
join_sound _ r s h = h

join_complete : (q r : Regex) (s : List ℕ) → Lang (seq q r) s → Lang (join q r) s
unfolding join
join_complete none_of r s h = absurd h.2
join_complete eps r s (u, v, hu, hv, e) = subst (Lang r) (cc) hv
join_complete _ r s h = h

either_sound : (q r : Regex) (s : List ℕ) → Lang (either q r) s → Lang (alt q r) s
unfolding either
either_sound none_of r s h = inr h
either_sound eps none_of s h = inl h
either_sound (cls _) none_of s h = inl h
either_sound (seq _ _) none_of s h = inl h
either_sound (alt _ _) none_of s h = inl h
either_sound (star _) none_of s h = inl h
either_sound _ _ s h = h

either_complete : (q r : Regex) (s : List ℕ) → Lang (alt q r) s → Lang (either q r) s
unfolding either
either_complete none_of r s (inl h) = absurd h
either_complete none_of r s (inr h) = h
either_complete _ none_of s (inl h) = h
either_complete _ none_of s (inr h) = absurd h
either_complete _ _ s h = h

nullable_sound : (r : Regex) → nullable r ≡ true → Lang r []
unfolding nullable
nullable_sound none_of h = cc
nullable_sound eps h = refl
nullable_sound (cls _) h = cc
nullable_sound (seq q r) h =
    ([], [], nullable_sound q (ground arith), nullable_sound r (ground arith), refl)
nullable_sound (alt q r) h = elim (Bool-cases (nullable q)) [
  | inl e ↦ inl (nullable_sound q e)
  | inr e ↦ inr (nullable_sound r (ground arith))
]
nullable_sound (star r) h = done refl

append-eq-nil : (u v : List ℕ) → u ++ v ≡ [] → (u ≡ []) × (v ≡ [])
append-eq-nil [] v e = (refl, e)
append-eq-nil (c ∷ u) v e = cc

nullable_complete : (r : Regex) (s : List ℕ) → Lang r s → s ≡ [] → nullable r ≡ true
unfolding nullable
nullable_complete none_of s h e = absurd h
nullable_complete eps s h e = refl
nullable_complete (cls _) s (c, _, k) e = cc
nullable_complete (seq q r) s (u, v, hu, hv, k) e =
    let both = append-eq-nil u v (cc) in
    rw (nullable_complete q u hu both.0, nullable_complete r v hv both.1)
nullable_complete (alt q r) s (inl h) e = ground (arith, nullable_complete q s h e)
nullable_complete (alt q r) s (inr h) e = ground (arith, nullable_complete r s h e)
nullable_complete (star r) s h e = refl

seq_sound :
    (c : ℕ) (q r : Regex) (s : List ℕ)
    → ((t : List ℕ) → Lang (deriv c q) t → Lang q (c ∷ t))
    → Lang (join (deriv c q) r) s
    → Lang (seq q r) (c ∷ s)
seq_sound c q r s step h =
    let (u, v, hu, hv, e) = join_sound (deriv c q) r s h in
    (c ∷ u, v, step u hu, hv, ap (λ t. c ∷ t) e)

class_sound :
    (c : ℕ) (rs : List (ℕ × ℕ)) (b : Bool) (s : List ℕ)
    → in_class rs c ≡ b
    → Lang (if b then eps else none_of) s
    → Lang (cls rs) (c ∷ s)
class_sound c rs true s e h = (c, e, ap (λ t. c ∷ t) h)
class_sound c rs false s e h = absurd h

deriv_sound : (c : ℕ) (r : Regex) (s : List ℕ) → Lang (deriv c r) s → Lang r (c ∷ s)
unfolding deriv
deriv_sound c none_of s h = absurd h
deriv_sound c eps s h = absurd h
deriv_sound c (cls rs) s h = class_sound c rs (in_class rs c) s refl h
deriv_sound c (seq q r) s h = elim (Bool-cases (nullable q)) [
  | inl e ↦ elim (either_sound (join (deriv c q) r) (deriv c r) s (rw (e, if◌then◌else◌) at h)) [
    | inl k ↦ seq_sound c q r s (deriv_sound c q) k
    | inr k ↦ ([], c ∷ s, nullable_sound q e, deriv_sound c r s k, refl)
  ]
  | inr e ↦ seq_sound c q r s (deriv_sound c q) (rw e at h)
]
deriv_sound c (alt q r) s h = elim (either_sound (deriv c q) (deriv c r) s h) [
  | inl k ↦ inl (deriv_sound c q s k)
  | inr k ↦ inr (deriv_sound c r s k)
]
deriv_sound c (star r) s h =
    let (u, v, hu, hv, e) = join_sound (deriv c r) (star r) s h in
    more c u v (deriv_sound c r u hu) hv (ap (λ t. c ∷ t) e)

-- The derivative of the body, put in front of the rest, is the derivative of the whole.
seq_complete :
    (c : ℕ) (q r : Regex) (s u v : List ℕ)
    → ((t w : List ℕ) → Lang q t → t ≡ c ∷ w → Lang (deriv c q) w)
    → ((w : List ℕ) → Lang r w → w ≡ c ∷ s → Lang (deriv c r) s)
    → Lang q u
    → Lang r v
    → c ∷ s ≡ u ++ v
    → Lang (deriv c (seq q r)) s
unfolding deriv
seq_complete c q r s [] v step next hu hv e =
    rw (nullable_complete q [] hu refl)
      (either_complete (join (deriv c q) r) (deriv c r) s (inr (next v hv (sym e))))
seq_complete c q r s (d ∷ u) v step next hu hv e =
    let first = join_complete (deriv c q) r s (u, v, step (d ∷ u) u hu (cc), hv, cc) in
    elim (Bool-cases (nullable q)) [
      | inl k ↦ rw k (either_complete (join (deriv c q) r) (deriv c r) s (inl first))
      | inr k ↦ rw k first
    ]

deriv_complete : (c : ℕ) (r : Regex) (t s : List ℕ) → Lang r t → t ≡ c ∷ s → Lang (deriv c r) s
unfolding deriv
deriv_complete c none_of t s h e = absurd h
deriv_complete c eps t s h e = cc
deriv_complete c (cls rs) t s (d, k, h) e = let same : in_class rs c ≡ true = cc in rw same (cc)
deriv_complete c (seq q r) t s (u, v, hu, hv, k) e =
    seq_complete c q r s u v (deriv_complete c q) (λ w. deriv_complete c r w s) hu hv (sym e ∙ k)
deriv_complete c (alt q r) t s (inl h) e =
    either_complete (deriv c q) (deriv c r) s (inl (deriv_complete c q t s h e))
deriv_complete c (alt q r) t s (inr h) e =
    either_complete (deriv c q) (deriv c r) s (inr (deriv_complete c r t s h e))
deriv_complete c (star r) t s (done k) e = cc
deriv_complete c (star r) t s (more d u v hu hv k) e =
    join_complete (deriv c r) (star r) s (u, v, deriv_complete c r (d ∷ u) u hu (cc), hv, cc)

sound : (r : Regex) (s : List ℕ) → match_codes r s ≡ true → Lang r s
unfolding match_codes
sound r [] h = nullable_sound r h
sound r (c ∷ s) h = deriv_sound c r s (sound (deriv c r) s h)

complete : (r : Regex) (s : List ℕ) → Lang r s → match_codes r s ≡ true
unfolding match_codes
complete r [] h = nullable_complete r [] h refl
complete r (c ∷ s) h = complete (deriv c r) s (deriv_complete c r (c ∷ s) s h refl)

-- A pattern matches a text in full exactly when the text is in its language.
pub match_codes_iff : (r : Regex) (s : List ℕ) → (match_codes r s ≡ true) ↔ Lang r s
match_codes_iff r s = (sound r s, complete r s)
