-- ===== src/Commands/Consistent.antt =====
-- The canonical mappings identify one native record for one canonical resource (Commands/Mappings.antt).
use baobab_erp.Common.{
  ℕ, ◌+◌, ◌≤◌, ◌≡◌, refl, sym, ap, ◌∙◌, subst, arith, String, string_eq, nat_eq, eq_law, Bool, true,
  Option, none, some, List, [], ◌∷◌, ◌++◌, count, find_where, find_where-passes, Option-cases,
  Bool-cases, inl, inr, ok, ok_inj, bind-eq-ok, or_raise-eq-ok, if◌then◌else◌,
}
use baobab_erp.Egress.{TenantScope}
use baobab_erp.Commands.Mappings.{
  Mapping, Table, NativeRecordRef, not_a_uuid, is_of, is_native, ref_of, canonical_of, find_active,
  find_native, find_canonical,
}
use baobab_erp.Commands.Inserted.{IsInserted, create_mapping-IsInserted}
use baobab_erp.Commands.Stores.{Ledger, World, ledger, Env}
use baobab_erp.Commands.Requests.{Command, run}
use baobab_erp.Commands.Steps.{Steps}
use baobab_erp.Commands.Whole.{run-Kept}

some_inj : {A : Type 0} {a b : A} → some a ≡ some b → a ≡ b
some_inj e = cc e

module _ {R : Type 0} where
  count-none : (p : R → Bool) (t : List R) → find_where p t ≡ none → count p t ≡ 0
  count-none p [] h = refl
  count-none p (x ∷ t) h = ground (arith, count-none p t)

  count-append :
      (p : R → Bool) (t : List R) (r : R)
      → count p (t ++ r ∷ []) ≡ count p t + (if p r then 1 else 0)
  count-append p [] r = omega arith
  count-append p (x ∷ t) r = omega (arith, count-append p t r)

  pub find_where-append :
      (p : R → Bool) (t : List R) (r : R)
      → find_where p t ≡ none
      → p r ≡ true
      → find_where p (t ++ r ∷ []) ≡ some r
  find_where-append p [] r h passes = rw passes refl
  find_where-append p (x ∷ t) r h passes = ground (arith, find_where-append p t r)

  count_passes :
      (p q : R → Bool) (t : List R) {r : R} → find_where p t ≡ some r → q r ≡ true → 1 ≤ count q t
  count_passes p q [] h passes = absurd (cc h)
  count_passes p q (x ∷ t) {r} h passes = elim (Bool-cases (p x)) [
    | inl e ↦
        let same : x ≡ r = some_inj (rw e at h) in
        let x_passes : q x ≡ true = ap q same ∙ passes in rw x_passes (omega arith)
    | inr e ↦ omega (arith, count_passes p q t {r = r} (rw e at h) passes)
  ]

  -- A row that passes a second test, which one row at most passes, is what that test finds.
  found_only :
      (p q : R → Bool) (t : List R) {r : R}
      → find_where p t ≡ some r
      → q r ≡ true
      → count q t ≤ 1
      → find_where q t ≡ some r
  found_only p q [] h passes one = absurd (cc h)
  found_only p q (x ∷ t) {r} h passes one = elim (Bool-cases (p x)) [
    | inl e ↦
        let same : some x ≡ some r = rw e at h in
        let x_passes : q x ≡ true = ap q (some_inj same) ∙ passes in rw x_passes same
    | inr e ↦
        let later : find_where p t ≡ some r = rw e at h in
        elim (Bool-cases (q x)) [
          | inl again ↦
              let two : 1 + count q t ≤ 1 = rw again at one in
              let there = count_passes p q t later passes in absurd (omega (arith, two, there))
          | inr fails ↦ rw fails (found_only p q t later passes (omega (arith, rw fails at one)))
        ]
  ]

-- one active row for each canonical resource, and for each native record
pub record IsConsistent (t : Table) : Type 0 where
  pub resources : (tenant kind id : String) → count (is_of tenant kind id) t ≤ 1
  pub natives : (tenant table : String) (id : ℕ) → count (is_native tenant table id) t ≤ 1

-- An active row with the key of a new one is the row that the new one would double.
is_of-same :
    (tenant kind id : String) (r : Mapping)
    → is_of tenant kind id r ≡ true
    → (r.tenant_id ≡ tenant) × (r.canonical_type ≡ kind) × (r.canonical_id ≡ id)
unfolding is_of
is_of-same tenant kind id r h = (
  ground (arith, eq_law r.tenant_id tenant),
  ground (arith, eq_law r.canonical_type kind),
  ground (arith, eq_law r.canonical_id id),
)

is_native-same :
    (tenant table : String) (id : ℕ) (r : Mapping)
    → is_native tenant table id r ≡ true
    → (r.tenant_id ≡ tenant) × (r.native_table ≡ table) × (r.native_id ≡ id)
unfolding is_native
is_native-same tenant table id r h = (
  ground (arith, eq_law r.tenant_id tenant),
  ground (arith, eq_law r.native_table table),
  ground (arith, eq_law r.native_id id),
)

module _ (r : Mapping) (before after : Table) (inserted : IsInserted r before after) where
  no_resource :
      (tenant kind id : String)
      → is_of tenant kind id r ≡ true
      → count (is_of tenant kind id) before ≡ 0
  no_resource tenant kind id h =
      let (a, b, c) = is_of-same tenant kind id r h in
      count-none (is_of tenant kind id) before (
        ap (λ x. find_where (is_of x kind id) before) (sym a)
        ∙ ap (λ x. find_where (is_of r.tenant_id x id) before) (sym b)
        ∙ ap (λ x. find_where (is_of r.tenant_id r.canonical_type x) before) (sym c)
        ∙ inserted.new_resource)

  no_native :
      (tenant table : String) (id : ℕ)
      → is_native tenant table id r ≡ true
      → count (is_native tenant table id) before ≡ 0
  no_native tenant table id h =
      let (a, b, c) = is_native-same tenant table id r h in
      count-none (is_native tenant table id) before (
        ap (λ x. find_where (is_native x table id) before) (sym a)
        ∙ ap (λ x. find_where (is_native r.tenant_id x id) before) (sym b)
        ∙ ap (λ x. find_where (is_native r.tenant_id r.native_table x) before) (sym c)
        ∙ inserted.new_native)

  still_one :
      (p : Mapping → Bool)
      → count p before ≤ 1
      → (p r ≡ true → count p before ≡ 0)
      → count p after ≤ 1
  still_one p one free =
      subst (λ t. count p t ≤ 1) (sym inserted.added)
        (elim (Bool-cases (p r)) [
          | inl e ↦ let grown = count-append p before r in omega (arith, free e, rw e at grown)
          | inr e ↦ let grown = count-append p before r in omega (arith, one, rw e at grown)
        ])

  inserted-IsConsistent : IsConsistent before → IsConsistent after
  inserted-IsConsistent c = record {
    resources = λ tenant kind id.
        still_one (is_of tenant kind id) (c.resources tenant kind id) (no_resource tenant kind id);
    natives = λ tenant table id.
        still_one (is_native tenant table id) (c.natives tenant table id)
          (no_native tenant table id);
  }

is_of-is_native :
    (tenant kind id : String) (r : Mapping)
    → is_of tenant kind id r ≡ true
    → is_native tenant r.native_table r.native_id r ≡ true
unfolding is_of is_native
is_of-is_native tenant kind id r h =
    ground (arith, eq_law r.native_table r.native_table, eq_law r.native_id r.native_id)

-- A native record that a canonical resource resolves to resolves back to that resource, in a
-- consistent table.
pub find_native-find_canonical :
    (as_uuid : String → Option String) (tenant kind id : String) (t : Table) {ref : NativeRecordRef}
    → IsConsistent t
    → find_native as_uuid tenant kind id t ≡ ok (some ref)
    → find_canonical tenant ref.table ref.record_id t ≡ as_uuid id
unfolding find_native find_active find_canonical
find_native-find_canonical as_uuid tenant kind id t {ref} c h =
    let (found, h1, h2) = bind-eq-ok (find_active as_uuid tenant kind id t) _ h in
    let (uuid, known, h3) = or_raise-eq-ok (as_uuid id) not_a_uuid _ h1 in
    elim (Option-cases found) [
      | inr (r, there) ↦
          let seen = ok_inj h3 ∙ there in
          let passes = find_where-passes (is_of tenant kind uuid) t seen in
          let same = some_inj (sym (ap ref_of there) ∙ ok_inj h2) in
          let back =
            found_only (is_of tenant kind uuid) (is_native tenant r.native_table r.native_id) t seen
              (is_of-is_native tenant kind uuid r passes)
              (c.natives tenant r.native_table r.native_id) in
          subst (λ (x : NativeRecordRef). find_canonical tenant x.table x.record_id t ≡ as_uuid id)
            same
            (ap canonical_of back
              ∙ ap (λ x. some x) (is_of-same tenant kind uuid r passes).2
              ∙ sym known)
      | inl gone ↦ absurd (cc (h2, gone))
    ]

module _ {N : Type 0} (env : Env N) (scope : TenantScope) where
  abbrev KeepsConsistent : Ledger → Ledger → Type 0
  KeepsConsistent before after = IsConsistent before.mappings → IsConsistent after.mappings

  KeepsConsistent-Steps : Steps env scope KeepsConsistent
  KeepsConsistent-Steps = record {
    same = λ l c. c;
    next = λ a b c x y h. y (x h);
    maps = λ l kind id table native_id t h c.
        let (uuid, known, inserted) =
          create_mapping-IsInserted env.as_uuid env.new_ids scope.tenant_id scope.legal_entity_id
            kind id table native_id "erp" l.mappings t h in
        inserted-IsConsistent _ l.mappings t inserted c;
    holds = λ l e t h c. c;
    records = λ l e t h c. c;
    opens = λ l order_id version erp_id r t h c. c;
    observes = λ l order_id fact invoice_id c. c;
    links = λ l kind id order_id found links h c. c;
    advances = λ l kind id status detail now c. c;
  }

  -- A command leaves one active mapping at most for each canonical resource and for each native
  -- record, where that was so before it.
  pub run-IsConsistent :
      (c : Command) (w : World N)
      → IsConsistent (ledger w).mappings
      → IsConsistent (ledger (run env scope c w).1).mappings
  run-IsConsistent c w = (run-Kept env scope KeepsConsistent KeepsConsistent-Steps c).keeps w
