-- ===== src/Common/Table.antt =====
-- A database table is the list of its rows. The statements of the program are an update of the
-- rows that a test selects, the first row that a test selects, and an insertion.
use mathlib.Core.Path.{◌≡◌, refl}
use mathlib.Core.Bool.{Bool, true}
use mathlib.Core.Option.{Option, none, some}
use mathlib.Core.List.{List, [], ◌∷◌}
use native.Mathlib.Omega.{arith}
use baobab_erp.Common.Tests.{if◌then◌else◌}
use baobab_erp.Common.Lists.{All}

module _ {ℓ} {R : Type ℓ} where
  -- `UPDATE ... SET change WHERE test`
  abbrev pub update_where : (R → Bool) → (R → R) → List R → List R
  update_where test change [] = []
  update_where test change (r ∷ rs) = (if test r then change r else r) ∷ update_where test change rs

  -- `SELECT ... WHERE test`, of which the program reads one row
  abbrev pub find_where : (R → Bool) → List R → Option R
  find_where test [] = none
  find_where test (r ∷ rs) = if test r then some r else find_where test rs

  -- What every row has and the change keeps, every row has afterwards.
  pub All-update_where {κ} :
      (P : R → Type κ) (test : R → Bool) (change : R → R) (rs : List R)
      → ((r : R) → test r ≡ true → P r → P (change r))
      → All P rs
      → All P (update_where test change rs)
  All-update_where P test change [] keep h = tt
  All-update_where P test change (r ∷ rs) keep h =
      (ground (arith, keep r, h.0), All-update_where P test change rs keep h.1)

  -- A row that is found passes the test, and has what all rows have.
  pub find_where-holds {κ} :
      (P : R → Type κ) (test : R → Bool) (rs : List R) {r : R}
      → All P rs
      → find_where test rs ≡ some r
      → P r
  find_where-holds P test [] h e = cc
  find_where-holds P test (x ∷ xs) {r} h e = ground (arith, find_where-holds P test xs {r = r} h.1)

  pub find_where-passes :
      (test : R → Bool) (rs : List R) {r : R} → find_where test rs ≡ some r → test r ≡ true
  find_where-passes test [] e = cc
  find_where-passes test (x ∷ xs) {r} e = ground (arith, find_where-passes test xs {r = r})

  -- A search that does not see the change finds the old row, changed if it was selected.
  pub find_where-update_where :
      (seek test : R → Bool) (change : R → R) (rs : List R)
      → ((r : R) → seek (change r) ≡ seek r)
      → find_where seek (update_where test change rs)
        ≡ elim (find_where seek rs) [ none ↦ none | some r ↦ some (if test r then change r else r) ]
  find_where-update_where seek test change [] same = refl
  find_where-update_where seek test change (r ∷ rs) same =
      ground (arith, same r, find_where-update_where seek test change rs same)
