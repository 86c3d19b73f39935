-- ===== src/Common/Keyed.antt =====
-- Tables whose rows have a key: look-up by key, uniqueness of keys, and what an update does to both.
use mathlib.Core.Path.{◌≡◌, refl, subst, sym}
use mathlib.Core.Logic.{inl, inr}
use mathlib.Core.Bool.{Bool, true}
use mathlib.Core.Option.{Option, none, some}
use mathlib.Core.List.{List, [], ◌∷◌, ◌++◌}
use native.Mathlib.Omega.{arith}
use baobab_erp.Common.Tests.{if◌then◌else◌, Bool-cases}
use baobab_erp.Common.Equality.{Eq, ◌==◌, eq_law}
use baobab_erp.Common.Lists.{All, count}
use baobab_erp.Common.Table.{update_where, find_where}

module _ {ℓ} {R : Type ℓ} where
  abbrev pub map_option : (R → R) → Option R → Option R
  map_option f none = none
  map_option f (some r) = some (f r)

  pub All-map {κ ι} :
      (P : R → Type κ) (Q : R → Type ι) (xs : List R) → ((r : R) → P r → Q r) → All P xs → All Q xs
  All-map P Q [] f h = tt
  All-map P Q (x ∷ xs) f h = (f x h.0, All-map P Q xs f h.1)

module _ {ℓ κ} {R : Type ℓ} {K : Type κ} ⦃e : Eq K⦄ (key : R → K) where
  abbrev pub find_key : K → List R → Option R
  find_key k = find_where (λ r. key r == k)

  abbrev pub Unique : List R → Type ℓ
  Unique [] = Unit
  Unique (r ∷ t) = (find_key (key r) t ≡ none) × Unique t

  -- An update that keeps keys changes what is found under a key as it changes that row.
  pub find_key-update :
      (test : R → Bool) (f : R → R) (k : K) (t : List R)
      → ((r : R) → key (f r) ≡ key r)
      → find_key k (update_where test f t)
        ≡ map_option (λ r. if test r then f r else r) (find_key k t)
  find_key-update test f k [] keeps = refl
  find_key-update test f k (r ∷ t) keeps = ground (arith, keeps r, find_key-update test f k t keeps)

  pub Unique-update :
      (test : R → Bool) (f : R → R) (t : List R)
      → ((r : R) → key (f r) ≡ key r)
      → Unique t
      → Unique (update_where test f t)
  Unique-update test f [] keeps u = tt
  Unique-update test f (r ∷ t) keeps u = (
    ground (arith, keeps r, find_key-update test f (key r) t keeps, u.0),
    Unique-update test f t keeps u.1,
  )

  -- What is found under a key has that key.
  pub find_key-key : (k : K) (t : List R) {r : R} → find_key k t ≡ some r → key r ≡ k
  find_key-key k [] h = cc
  find_key-key k (x ∷ t) {r} h = ground (arith, eq_law (key x) k, find_key-key k t {r = r})

  absent_none :
      (test : R → Bool) (k : K) (t : List R)
      → ((r : R) → test r ≡ true → key r ≡ k)
      → find_key k t ≡ none
      → count test t ≡ 0
  absent_none test k [] own h = refl
  absent_none test k (x ∷ t) own h =
      ground (arith, own x, eq_law (key x) k, absent_none test k t own)

  -- A test that selects rows of one key only selects the row of that key, or nothing.
  pub count-Unique :
      (test : R → Bool) (k : K) (t : List R)
      → ((r : R) → test r ≡ true → key r ≡ k)
      → Unique t
      → count test t ≡ elim (find_key k t) [ none ↦ 0 | some r ↦ if test r then 1 else 0 ]
  count-Unique test k [] own u = refl
  count-Unique test k (x ∷ t) own u = elim (Bool-cases (key x == k)) [
    | inl e ↦
        let gone : find_key k t ≡ none =
          subst (λ j. find_key j t ≡ none) ((eq_law (key x) k).0 e) u.0 in
        ground (arith, e, absent_none test k t own gone)
    | inr e ↦ ground (arith, e, own x, eq_law (key x) k, count-Unique test k t own u.1)
  ]

  -- Where keys are unique every row is found under its key.
  pub All-found : (t : List R) → Unique t → All (λ r. find_key (key r) t ≡ some r) t
  All-found [] u = tt
  All-found (x ∷ t) u = (
    ground (arith, eq_law (key x) (key x)),
    All-map (λ y. find_key (key y) t ≡ some y) (λ y. find_key (key y) (x ∷ t) ≡ some y) t
        (λ y h. elim (Bool-cases (key x == key y)) [
          | inl e ↦
              let again : find_key (key x) t ≡ some y =
                subst (λ k. find_key k t ≡ some y) (sym ((eq_law (key x) (key y)).0 e)) h in
              cc (u.0, again)
          | inr e ↦ rw e h
        ])
        (All-found t u.1),
  )

  -- A row added at the end is found under its key, where no row had it.
  pub find_key-append :
      (k : K) (t : List R) (r : R)
      → find_key k t ≡ none
      → key r ≡ k
      → find_key k (t ++ r ∷ []) ≡ some r
  find_key-append k [] r h same = ground (arith, eq_law (key r) k)
  find_key-append k (x ∷ t) r h same = ground (arith, find_key-append k t r)

  -- A row added at the end hides no row.
  pub find_key-kept :
      (k : K) (t : List R) (r : R) {x : R}
      → find_key k t ≡ some x
      → find_key k (t ++ r ∷ []) ≡ some x
  find_key-kept k [] r h = cc
  find_key-kept k (y ∷ t) r {x} h = ground (arith, find_key-kept k t r {x = x})

  -- What all rows have, the row that is found has.
  pub All-find {ι} :
      (P : R → Type ι) (k : K) (t : List R) {r : R} → All P t → find_key k t ≡ some r → P r
  All-find P k [] h found = cc
  All-find P k (x ∷ t) {r} h found = elim (Bool-cases (key x == k)) [
    | inl e ↦ let same : some x ≡ some r = rw e at found in subst P (cc) h.0
    | inr e ↦ All-find P k t h.1 (rw e at found)
  ]
