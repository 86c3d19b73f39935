-- ===== src/Outbox/Rows.antt =====
-- Rows of the outbox by name: what an update does to a look-up, and why the due rows are distinct
-- rows of the table.
use baobab_erp.Common.{
  ℕ, zero, suc, String, string_eq, eq_law, ◌≡◌, Bool, true, false, Option, none, some, List, [],
  ◌∷◌, ◌==◌, arith, All, take, keep, update_where, find_where, Bool-cases, inl, inr, if◌then◌else◌,
  leb,
}
use baobab_erp.Outbox.Store.{
  Row, Table, Selection, named, is_due, occurred_at, insert_by_time, sort_by_time, due_rows,
}

abbrev pub find : String → Table → Option Row
find name = find_where (named name)

abbrev pub map_option : (Row → Row) → Option Row → Option Row
map_option f none = none
map_option f (some r) = some (f r)

-- An update that keeps names changes what is found under its own name, and nothing else.
pub find-update :
    (m n : String) (f : Row → Row) (t : Table)
    → ((r : Row) → (f r).name ≡ r.name)
    → find n (update_where (named m) f t) ≡ (if m == n then map_option f (find n t) else find n t)
find-update m n f [] keeps = ground arith
find-update m n f (r ∷ t) keeps =
    ground (arith, keeps r, eq_law m n, eq_law r.name m, eq_law r.name n, find-update m n f t keeps)

-- `event_id` is UNIQUE.
abbrev pub Unique : Table → Type 0
Unique [] = Unit
Unique (r ∷ t) = (find r.name t ≡ none) × Unique t

abbrev pub Apart : Row → Row → Type 0
Apart r x = (x.name == r.name) ≡ false

abbrev pub Distinct : List Row → Type 0
Distinct [] = Unit
Distinct (r ∷ rs) = All (Apart r) rs × Distinct rs

Apart-sym : (r x : Row) → Apart r x → Apart x r
Apart-sym r x h = ground (arith, eq_law x.name r.name, eq_law r.name x.name)

module _ {κ} (P : Row → Type κ) where
  pub All-keep :
      (test : Row → Bool) (t : Table) → All P t → All (λ r. P r × (test r ≡ true)) (keep test t)
  All-keep test [] h = tt
  All-keep test (r ∷ t) h = elim (Bool-cases (test r)) [
    | inl e ↦ rw e ((h.0, e), All-keep test t h.1)
    | inr e ↦ rw e (All-keep test t h.1)
  ]

  All-insert : (r : Row) (xs : List Row) → P r → All P xs → All P (insert_by_time r xs)
  unfolding insert_by_time
  All-insert r [] p h = (p, tt)
  All-insert r (x ∷ xs) p h = elim (Bool-cases (leb (occurred_at r) (occurred_at x))) [
    | inl e ↦ rw e (p, h)
    | inr e ↦ rw e (h.0, All-insert r xs p h.1)
  ]

  pub All-sort : (xs : List Row) → All P xs → All P (sort_by_time xs)
  unfolding sort_by_time
  All-sort [] h = tt
  All-sort (r ∷ xs) h = All-insert r (sort_by_time xs) h.0 (All-sort xs h.1)

  pub All-take : (n : ℕ) (xs : List Row) → All P xs → All P (take n xs)
  All-take zero xs h = tt
  All-take (suc n) [] h = tt
  All-take (suc n) (x ∷ xs) h = (h.0, All-take n xs h.1)

-- A consequence holds of all elements; a fact about each is kept along.
pub All-map {κ ι} :
    (P : Row → Type κ) (Q : Row → Type ι) (xs : List Row)
    → ((r : Row) → P r → Q r)
    → All P xs
    → All Q xs
All-map P Q [] f h = tt
All-map P Q (x ∷ xs) f h = (f x h.0, All-map P Q xs f h.1)

Apart-absent : (r : Row) (t : Table) → find r.name t ≡ none → All (Apart r) t
Apart-absent r [] h = tt
Apart-absent r (x ∷ t) h =
    let other : (x.name == r.name) ≡ false = ground arith in
    (other, Apart-absent r t (rw other at h))

Distinct-Unique : (t : Table) → Unique t → Distinct t
Distinct-Unique [] u = tt
Distinct-Unique (r ∷ t) u = (Apart-absent r t u.0, Distinct-Unique t u.1)

-- In a table with unique names a row is found under its name.
pub All-found : (t : Table) → Unique t → All (λ r. find r.name t ≡ some r) t
All-found [] u = tt
All-found (r ∷ t) u = (
  ground (arith, eq_law r.name r.name),
  All-map (λ x. find x.name t ≡ some x) (λ x. find x.name (r ∷ t) ≡ some x) t
      (λ x h. ground (arith, eq_law r.name x.name, u.0, h)) (All-found t u.1),
)

Distinct-keep : (test : Row → Bool) (t : List Row) → Distinct t → Distinct (keep test t)
Distinct-keep test [] d = tt
Distinct-keep test (r ∷ t) d = elim (Bool-cases (test r)) [
  | inl e ↦ rw e (
    All-map (λ x. Apart r x × (test x ≡ true)) (Apart r) (keep test t) (λ x h. h.0)
        (All-keep (Apart r) test t d.0),
    Distinct-keep test t d.1,
  )
  | inr e ↦ rw e (Distinct-keep test t d.1)
]

Distinct-insert :
    (r : Row) (xs : List Row) → All (Apart r) xs → Distinct xs → Distinct (insert_by_time r xs)
unfolding insert_by_time
Distinct-insert r [] h d = (tt, tt)
Distinct-insert r (x ∷ xs) h d = elim (Bool-cases (leb (occurred_at r) (occurred_at x))) [
  | inl e ↦ rw e (h, d)
  | inr e ↦ rw e (All-insert (Apart x) r xs (Apart-sym r x h.0) d.0, Distinct-insert r xs h.1 d.1)
]

Distinct-sort : (xs : List Row) → Distinct xs → Distinct (sort_by_time xs)
unfolding sort_by_time
Distinct-sort [] d = tt
Distinct-sort (r ∷ xs) d =
    Distinct-insert r (sort_by_time xs) (All-sort (Apart r) xs d.0) (Distinct-sort xs d.1)

Distinct-take : (n : ℕ) (xs : List Row) → Distinct xs → Distinct (take n xs)
Distinct-take zero xs d = tt
Distinct-take (suc n) [] d = tt
Distinct-take (suc n) (x ∷ xs) d = (All-take (Apart x) n xs d.0, Distinct-take n xs d.1)

module _ (now limit : ℕ) (s : Selection) (t : Table) (u : Unique t) where
  -- The due rows have different names.
  pub due_rows-Distinct : Distinct (due_rows now limit s t)
  unfolding due_rows
  due_rows-Distinct =
      Distinct-take limit (sort_by_time (keep (is_due now s) t)) (
        Distinct-sort (keep (is_due now s) t)
          (Distinct-keep (is_due now s) t (Distinct-Unique t u)))

  -- Each is the table's row of its name, and is due.
  pub due_rows-found :
      All (λ r. (find r.name t ≡ some r) × (is_due now s r ≡ true)) (due_rows now limit s t)
  unfolding due_rows
  due_rows-found =
      let P = λ (r : Row). (find r.name t ≡ some r) × (is_due now s r ≡ true) in
      All-take P limit (sort_by_time (keep (is_due now s) t)) (
        All-sort P (keep (is_due now s) t)
          (All-keep (λ r. find r.name t ≡ some r) (is_due now s) t (All-found t u)))
