-- ===== src/Inbox/Choice.antt =====
-- Which row a claim takes (`next_due` of Inbox/Queue.antt): one that can be claimed, before which no
-- other that can be claimed comes.
use baobab_erp.Common.{
  ℕ, String, string_eq, nat_eq, option_eq, ◌≡◌, refl, sym, subst, Bool, true, false, not, ◌&&◌,
  Option, none, some, List, [], ◌∷◌, arith, All, find_key, Unique, Bool-cases, Option-cases, inl,
  inr, if◌then◌else◌,
}
use baobab_erp.Inbox.Queue.{
  Row, Table, is_claimable, is_locked, comes_before, first_of_two, next_due,
}

abbrev pub find : ℕ → Table → Option Row
find = find_key (λ (r : Row). r.id)

abbrev pub HasUniqueIds : Table → Type 0
HasUniqueIds = Unique (λ (r : Row). r.id)

-- the row under an id is claimable and not locked
abbrev pub is_eligible : ℕ → String → List ℕ → Row → Bool
is_eligible now event_type locked r = is_claimable now event_type r && not (is_locked locked r.id)

abbrev pub Eligible : ℕ → String → List ℕ → Row → Type 0
Eligible now event_type locked r = is_eligible now event_type locked r ≡ true

pub next_due-Eligible :
    (now : ℕ) (event_type : String) (locked : List ℕ) (t : Table) {r : Row}
    → next_due now event_type locked t ≡ some r
    → Eligible now event_type locked r
unfolding next_due
next_due-Eligible now event_type locked [] h = cc
next_due-Eligible now event_type locked (x ∷ t) {r} h =
    ground (arith, next_due-Eligible now event_type locked t {r = r})

-- no eligible row of the list comes before `r`
abbrev pub IsFirst : ℕ → String → List ℕ → Row → Table → Type 0
IsFirst now event_type locked r =
    All (λ x. (is_eligible now event_type locked x && comes_before x r) ≡ false)

IsFirst-trans :
    (now : ℕ) (event_type : String) (locked : List ℕ) (x r : Row) (t : Table)
    → comes_before r x ≡ false
    → IsFirst now event_type locked r t
    → IsFirst now event_type locked x t
IsFirst-trans now event_type locked x r [] before h = tt
IsFirst-trans now event_type locked x r (y ∷ t) before h =
    (ground (arith, h.0), IsFirst-trans now event_type locked x r t before h.1)

pub none_eligible :
    (now : ℕ) (event_type : String) (locked : List ℕ) (r : Row) (t : Table)
    → next_due now event_type locked t ≡ none
    → IsFirst now event_type locked r t
unfolding next_due
none_eligible now event_type locked r [] h = tt
none_eligible now event_type locked r (x ∷ t) h =
    (ground arith, none_eligible now event_type locked r t (ground arith))

comes_before-first_of_two :
    (x : Row) (rest : Option Row) → comes_before x (first_of_two x rest) ≡ false
comes_before-first_of_two x none = ground arith
comes_before-first_of_two x (some y) = ground arith

first_of_two-IsFirst :
    (now : ℕ) (event_type : String) (locked : List ℕ) (x y : Row) (t : Table)
    → IsFirst now event_type locked y t
    → IsFirst now event_type locked (first_of_two x (some y)) t
first_of_two-IsFirst now event_type locked x y t h = elim (Bool-cases (comes_before y x)) [
  | inl e ↦ rw e h
  | inr e ↦ rw e (IsFirst-trans now event_type locked x y t e h)
]

pub next_due-IsFirst :
    (now : ℕ) (event_type : String) (locked : List ℕ) (t : Table) {r : Row}
    → next_due now event_type locked t ≡ some r
    → IsFirst now event_type locked r t
unfolding next_due
next_due-IsFirst now event_type locked [] h = tt
next_due-IsFirst now event_type locked (x ∷ t) {r} h =
    elim (Bool-cases (is_claimable now event_type x && not (is_locked locked x.id))) [
      | inl e ↦
          let rest = next_due now event_type locked t in
          let chosen : first_of_two x rest ≡ r = cc (rw e at h) in
          subst (λ c. IsFirst now event_type locked c (x ∷ t)) chosen
            (
              ground (arith, comes_before-first_of_two x rest),
              elim (Option-cases rest) [
                | inl q ↦ none_eligible now event_type locked (first_of_two x rest) t q
                | inr (y, q) ↦
                    subst (λ o. IsFirst now event_type locked (first_of_two x o) t) (sym q)
                      (first_of_two-IsFirst now event_type locked x y t
                        (next_due-IsFirst now event_type locked t q))
              ],
            )
      | inr e ↦ (ground (arith, e), next_due-IsFirst now event_type locked t (rw e at h))
    ]

chosen_holds {κ} :
    (P : Row → Type κ) (b : Bool) (x : Row) (rest : Option Row) {r : Row}
    → P x
    → ((y : Row) → rest ≡ some y → P y)
    → (if b then some (first_of_two x rest) else rest) ≡ some r
    → P r
chosen_holds P false x rest {r} px prest h = prest r h
chosen_holds P true x none px prest h = subst P (cc) px
chosen_holds P true x (some y) px prest h = elim (Bool-cases (comes_before y x)) [
  | inl e ↦ let same : first_of_two x (some y) ≡ y = rw e in subst P (cc) (prest y refl)
  | inr e ↦ let same : first_of_two x (some y) ≡ x = rw e in subst P (cc) px
]

-- What all rows have, the chosen row has.
pub next_due-holds {κ} :
    (P : Row → Type κ) (now : ℕ) (event_type : String) (locked : List ℕ) (t : Table) {r : Row}
    → All P t
    → next_due now event_type locked t ≡ some r
    → P r
unfolding next_due
next_due-holds P now event_type locked [] h e = cc
next_due-holds P now event_type locked (x ∷ t) {r} h e =
    chosen_holds P (is_claimable now event_type x && not (is_locked locked x.id)) x
      (next_due now event_type locked t) h.0
      (λ y q. next_due-holds P now event_type locked t {r = y} h.1 q) e
