-- ===== src/Commands/Resolved.antt =====
-- A document that was created is resolved to its native record (Commands/Ledger.antt).
use baobab_erp.Common.{
  ℕ, ◌≡◌, refl, sym, ap, ◌∙◌, arith, String, string_eq, nat_eq, eq_law, true, some, ◌<>◌,
  find_where, Result, ok, err, ok_inj,
}
use baobab_erp.Json.{Fields}
use baobab_erp.Egress.{TenantScope, with_request, request_for}
use baobab_erp.Commands.Calls.{◌>>=◌, ◌>>◌, continue_with}
use baobab_erp.Commands.Mappings
use baobab_erp.Commands.Mappings.{
  Mapping, MappingError, NativeRecordRef, is_of, ref_of, new_mapping, create_mapping, find_active,
  find_native,
}
use baobab_erp.Commands.Inserted.{create_mapping-IsInserted}
use baobab_erp.Commands.Consistent.{find_where-append}
use baobab_erp.Commands.Stores.{
  CommandError, World, ledger, Env, NativeDocumentRef, written, on_engine,
}
use baobab_erp.Commands.Ledger.{mapped, map_record, create_and_map, resolve_native}

module _ {N : Type 0} (env : Env N) (scope : TenantScope) (kind id table : String) where
  -- a new mapping is found
  is_of-new :
      (uuid : String) (native_id : ℕ)
      → is_of scope.tenant_id kind uuid (
          new_mapping env.new_ids scope.tenant_id scope.legal_entity_id kind uuid table native_id
            "erp")
        ≡ true
  unfolding is_of
  is_of-new uuid native_id =
      ground (arith, eq_law scope.tenant_id scope.tenant_id, eq_law kind kind, eq_law uuid uuid)

  created_found :
      (native_id : ℕ) (t u : Mappings.Table)
      → create_mapping env.as_uuid env.new_ids scope.tenant_id scope.legal_entity_id kind id table
          native_id "erp" t
        ≡ ok u
      → find_native env.as_uuid scope.tenant_id kind id u
        ≡ ok (some (record { table = table; record_id = native_id }))
  unfolding find_native find_active
  created_found native_id t u h =
      let (uuid, known, inserted) =
        create_mapping-IsInserted env.as_uuid env.new_ids scope.tenant_id scope.legal_entity_id kind
          id table native_id "erp" t u h in
      let row =
        new_mapping env.new_ids scope.tenant_id scope.legal_entity_id kind uuid table native_id
          "erp" in
      let there =
        ap (find_where (is_of scope.tenant_id kind uuid)) inserted.added
        ∙ find_where-append (is_of scope.tenant_id kind uuid) t row inserted.new_resource
            (is_of-new uuid native_id) in
      rw known (ap (λ x. ok (ref_of x)) there)

  mapped-found :
      (native_id : ℕ) (w x : World N) (r : Result MappingError Mappings.Table)
      → create_mapping env.as_uuid env.new_ids scope.tenant_id scope.legal_entity_id kind id table
          native_id "erp"
          (ledger w).mappings
        ≡ r
      → written (mapped env scope kind id table native_id (ledger w) r) w ≡ (ok tt, x)
      → find_native env.as_uuid scope.tenant_id kind id (ledger x).mappings
        ≡ ok (some (record { table = table; record_id = native_id }))
  mapped-found native_id (p, (l, n)) x (ok t) made h =
      ap (λ y. find_native env.as_uuid scope.tenant_id kind id (ledger y.1).mappings) (sym h)
      ∙ created_found native_id l.mappings t made
  mapped-found native_id w x (err e) made h = absurd (cc (ap (λ y. y.0) h))

  mapped_then :
      (native_id : ℕ) (w x : World N) (r : Result CommandError (Unit {0}) × World N)
      {ref : NativeDocumentRef}
      → map_record env scope kind id table native_id w ≡ r
      → continue_with r
          (λ _ y. (ok (record { canonical_id = id; table = table; native_id = native_id }), y))
        ≡ (ok ref, x)
      → find_native env.as_uuid scope.tenant_id kind id (ledger x).mappings
        ≡ ok (some (record { table = table; record_id = ref.native_id }))
  unfolding map_record
  mapped_then native_id w x (err e, y) made h = absurd (cc (ap (λ z. z.0) h))
  mapped_then native_id w x (ok tt, y) made h =
      let found = mapped-found native_id w y _ refl made in
      let number = ap (λ (z : NativeDocumentRef). z.native_id) (ok_inj (ap (λ z. z.0) h)) in
      sym (ap (λ z. find_native env.as_uuid scope.tenant_id kind id (ledger z.1).mappings) h)
      ∙ found
      ∙ ap (λ k. ok (some (record { table = table; record_id = k }))) number

  created_then :
      (r : Result CommandError ℕ × World N) (x : World N) {ref : NativeDocumentRef}
      → continue_with r (λ native_id.
        map_record env scope kind id table native_id
        >> (λ y. (ok (record { canonical_id = id; table = table; native_id = native_id }), y)))
        ≡ (ok ref, x)
      → find_native env.as_uuid scope.tenant_id kind id (ledger x).mappings
        ≡ ok (some (record { table = table; record_id = ref.native_id }))
  unfolding ◌>>◌
  created_then (err e, w) x h = absurd (cc (ap (λ y. y.0) h))
  created_then (ok native_id, w) x h = mapped_then native_id w x _ refl h

  -- In the world that `_create_and_map` leaves, `_resolve_native` takes the canonical id and the
  -- table of the document that it returned to the native number that it returned, and changes
  -- nothing.
  pub create_and_map-resolve_native :
      (fields : Fields) (w x : World N) {ref : NativeDocumentRef}
      → create_and_map env scope kind id table fields w ≡ (ok ref, x)
      → resolve_native env scope kind id table x ≡ (ok ref.native_id, x)
  unfolding ◌>>=◌ ◌>>◌ create_and_map resolve_native
  create_and_map-resolve_native fields w x {ref} h =
      let found =
        created_then
          (with_request (request_for env.host "POST" ("/models/" <> table) fields)
            (on_engine (env.engine.create_record table fields)) w)
          x {ref = ref} h in
      rw found (rw ((eq_law table table).1 refl) refl)
