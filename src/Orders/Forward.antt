-- ===== src/Orders/Forward.antt =====
-- Documents' revisions (Orders/Outcomes.antt): they only go forward, and a change is announced once.
use baobab_erp.Common.{
  ℕ, ◌+◌, ◌≤◌, String, string_eq, pair_eq, eq_law, ◌≡◌, refl, sym, ap, subst, ◌∙◌, true, false,
  ◌&&◌, none, some, List, [], ◌∷◌, ◌++◌, Eq, ◌==◌, ltb, arith, update_where, find_key-update,
  find_key-key, find_key-append, Bool-cases, Option-cases, inl, inr, if◌then◌else◌,
}
use baobab_erp.Orders.Outcomes.{
  rank, Document, document_key, find_document, is_document, first_revision, revise, advance_row,
  advance,
}

module _ {A : Type 0} ⦃e : Eq A⦄ (key : String × (String × String)) (status : String) (detail : A)
    (now : ℕ) (t : List (Document A)) where
  revised :
      {d : Document A}
      → find_document key t ≡ some d
      → find_document key (update_where (is_document key) (revise status detail now) t)
        ≡ some (revise status detail now d)
  revised {d} found =
      let here : is_document key d ≡ true =
        (eq_law (document_key d) key).1 (find_key-key document_key key t found) in
      find_key-update document_key (is_document key) (revise status detail now) key t
        (λ x. unfold revise in refl)
      ∙ rw (found, here)

  -- A document that is known keeps its first sight and its rank does not fall; its revision grows by one
  -- and its row is revised if the call reports a change, and otherwise nothing is written.
  pub advance_known :
      (d : Document A)
      → find_document key t ≡ some d
      → (v : Document A) × (find_document key (advance key status detail now t).1 ≡ some v)
        × ((advance key status detail now t).0 ≡ record {
          revision = v.revision;
          first_seen_at = d.first_seen_at;
          changed = (advance key status detail now t).0.changed;
        })
        × (v.first_seen_at ≡ d.first_seen_at)
        × (rank d.status ≤ rank v.status)
        × (v.revision ≡ d.revision + (if (advance key status detail now t).0.changed then 1 else 0))
        × ((advance key status detail now t).1 ≡ (
            if (advance key status detail now t).0.changed
            then update_where (is_document key) (revise status detail now) t
            else t))
  unfolding advance revise
  advance_known d found = elim (Bool-cases (ltb (rank status) (rank d.status))) [
    | inl back ↦
        rw (found, advance_row, back) (d, found, refl, refl, omega arith, omega arith, refl)
    | inr on ↦ elim (Bool-cases (d.status == status && d.detail == detail)) [
      | inl same ↦
          rw (found, advance_row, on, same) (d, found, refl, refl, omega arith, omega arith, refl)
      | inr new ↦
          rw (found, advance_row, on, new)
            (revise status detail now d, revised found, refl, refl, ground (arith, on), refl, refl)
    ]
  ]

  key-first_revision : document_key (first_revision key status detail now) ≡ key
  key-first_revision = refl

  -- what is stored already is no change
  advance_idle :
      (later : ℕ) (u : List (Document A)) (d : Document A)
      → find_document key u ≡ some d
      → d.status ≡ status
      → d.detail ≡ detail
      → advance key status detail later u
        ≡ (record { revision = d.revision; first_seen_at = d.first_seen_at; changed = false }, u)
  unfolding advance
  advance_idle later u d found s x =
      let level : ltb (rank status) (rank d.status) ≡ false = ground (arith, s) in
      let same : d.status == status && d.detail == detail ≡ true =
        ground (arith, (eq_law d.status status).1 s, (eq_law d.detail detail).1 x) in
      rw (found, advance_row, level, same)

  agreed :
      (d : Document A)
      → d.status == status && d.detail == detail ≡ true
      → (d.status ≡ status) × (d.detail ≡ detail)
  agreed d same = ground (arith, eq_law d.status status, eq_law d.detail detail)

  abbrev Repeats : ℕ → List (Document A) → Type 0
  Repeats later u =
      ((advance key status detail later u).0.changed ≡ false)
      × ((advance key status detail later u).1 ≡ u)

  stored-Repeats :
      (later : ℕ) (u : List (Document A)) (d : Document A)
      → find_document key u ≡ some d
      → d.status ≡ status
      → d.detail ≡ detail
      → Repeats later u
  stored-Repeats later u d found s x =
      let idle = advance_idle later u d found s x in
      (ap (λ y. y.0.changed) idle, ap (λ y. y.1) idle)

  backward-Repeats :
      (later : ℕ) (d : Document A)
      → find_document key t ≡ some d
      → ltb (rank status) (rank d.status) ≡ true
      → Repeats later t
  unfolding advance
  backward-Repeats later d found back = rw (found, advance_row, back) (refl, refl)

  -- what a call writes
  written : (advance key status detail now t).1 ≡ elim (find_document key t) [
    | none ↦ t ++ first_revision key status detail now ∷ []
    | some d ↦
        if ltb (rank status) (rank d.status)
        then t
        else if d.status == status && d.detail == detail
        then t
        else update_where (is_document key) (revise status detail now) t
  ]
  unfolding advance
  written = elim (Option-cases (find_document key t)) [
    | inl missing ↦ rw (missing, advance_row)
    | inr (d, found) ↦ elim (Bool-cases (ltb (rank status) (rank d.status))) [
      | inl back ↦ rw (found, advance_row, back)
      | inr on ↦ elim (Bool-cases (d.status == status && d.detail == detail)) [
        | inl same ↦ rw (found, advance_row, on, same)
        | inr new ↦ rw (found, advance_row, on, new)
      ]
    ]
  ]

  -- The same status and detail, reported again at any later time, is no change, and nothing is written.
  advance-advance :
      (later : ℕ)
      → ((advance key status detail later (advance key status detail now t).1).0.changed ≡ false)
        × ((advance key status detail later (advance key status detail now t).1).1
            ≡ (advance key status detail now t).1)
  advance-advance later = elim (Option-cases (find_document key t)) [
    | inl missing ↦ subst (Repeats later) (sym (written ∙ rw missing)) (
        stored-Repeats later (t ++ first_revision key status detail now ∷ [])
          (first_revision key status detail now)
          (find_key-append document_key key t (first_revision key status detail now) missing
            key-first_revision)
          refl refl)
    | inr (d, found) ↦ elim (Bool-cases (ltb (rank status) (rank d.status))) [
      | inl back ↦
          subst (Repeats later) (sym (written ∙ rw (found, back)))
            (backward-Repeats later d found back)
      | inr on ↦ elim (Bool-cases (d.status == status && d.detail == detail)) [
        | inl same ↦
            let (s, x) = agreed d same in
            subst (Repeats later) (sym (written ∙ rw (found, on, same)))
              (stored-Repeats later t d found s x)
        | inr new ↦ subst (Repeats later) (sym (written ∙ rw (found, on, new))) (
            stored-Repeats later (update_where (is_document key) (revise status detail now) t)
              (revise status detail now d) (revised found) (unfold revise in refl)
              (unfold revise in refl))
      ]
    ]
  ]
