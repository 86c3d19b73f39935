-- ===== src/Commands/Mappings.antt =====
-- The canonical mappings (`PostgresCanonicalMappingStore` of modules/mapping/postgres_store.py): rows of
-- `baobab.entity_mapping` with its two unique indexes on active rows. `as_uuid` casts a text to the
-- canonical text of a UUID; the ids of a new row are the database's defaults.
use baobab_erp.Common.{
  ℕ, String, string_eq, nat_eq, Bool, true, false, not, ◌&&◌, ◌||◌, Option, none, some, List, [],
  ◌∷◌, ◌++◌, ◌==◌, any, count, is_some, keep, map, find_where, Result, ok, err, raise_if, or_raise,
  ◌>>=◌, ◌>>◌,
}
use baobab_erp.Identifiers
use baobab_erp.Identifiers.{IdentifierError}

pub data MappingStatus : Type 0 where
  pending active suspended retired quarantined : MappingStatus

abbrev is_active : MappingStatus → Bool
is_active active = true
is_active _ = false

-- a row of `baobab.entity_mapping`
pub record Mapping : Type 0 where
  pub mapping_id : String
  pub tenant_id : String
  pub legal_entity_id : String
  pub canonical_type : String
  pub canonical_id : String
  pub native_table : String
  pub native_id : ℕ
  pub canonical_owner : String
  pub erp_resource_id : String
  pub status : MappingStatus

abbrev pub Table : Type 0
Table = List Mapping

pub record NativeRecordRef : Type 0 where
  pub table : String
  pub record_id : ℕ

-- the ids that the database gives a new row
pub record NewIds : Type 0 where
  pub mapping_id : String
  pub erp_resource_id : String

pub data MappingError : Type 0 where
  malformed : IdentifierError → MappingError
  unknown_owner not_a_uuid duplicate_mapping : MappingError

-- `CANONICAL_OWNERS`
abbrev canonical_owners : List String
canonical_owners =
    "control-plane" ∷ "shared" ∷ "trade" ∷ "erp" ∷ "identity-provider" ∷ "payment-provider" ∷ []

-- the active row of a canonical resource, and of a native record
unfoldable pub is_of : String → String → String → Mapping → Bool
is_of tenant_id canonical_type canonical_id r =
    is_active r.status
    && r.tenant_id == tenant_id
    && r.canonical_type == canonical_type
    && r.canonical_id == canonical_id

unfoldable pub is_native : String → String → ℕ → Mapping → Bool
is_native tenant_id table record_id r =
    is_active r.status
    && r.tenant_id == tenant_id
    && r.native_table == table
    && r.native_id == record_id

abbrev pub ref_of : Option Mapping → Option NativeRecordRef
ref_of none = none
ref_of (some r) = some (record { table = r.native_table; record_id = r.native_id })

abbrev pub resource_of : Option Mapping → Option String
resource_of none = none
resource_of (some r) = some r.erp_resource_id

abbrev pub canonical_of : Option Mapping → Option String
canonical_of none = none
canonical_of (some r) = some r.canonical_id

-- the IdentifierError of the code, as an error of the store
abbrev pub well_formed : {A : Type 0} → Result IdentifierError A → Result MappingError (Unit {0})
well_formed (ok a) = ok tt
well_formed (err e) = err (malformed e)

-- the row of a new mapping
abbrev pub new_mapping : NewIds → String → String → String → String → String → ℕ → String → Mapping
new_mapping ids tenant_id legal_entity_id canonical_type uuid native_table native_id owner =
    record {
      mapping_id = ids.mapping_id;
      tenant_id = tenant_id;
      legal_entity_id = legal_entity_id;
      canonical_type = canonical_type;
      canonical_id = uuid;
      native_table = native_table;
      native_id = native_id;
      canonical_owner = owner;
      erp_resource_id = ids.erp_resource_id;
      status = active;
    }

-- the `INSERT`, under the two unique indexes
abbrev pub insert_mapping : Mapping → Table → Result MappingError Table
insert_mapping r t = do
  raise_if
      (is_some (find_where (is_of r.tenant_id r.canonical_type r.canonical_id) t)
        || is_some (find_where (is_native r.tenant_id r.native_table r.native_id) t))
      duplicate_mapping
  ok (t ++ r ∷ [])

-- `find_canonical`
unfoldable pub find_canonical : String → String → ℕ → Table → Option String
find_canonical tenant_id table record_id t =
    canonical_of (find_where (is_native tenant_id table record_id) t)

abbrev is_quarantined : MappingStatus → Bool
is_quarantined quarantined = true
is_quarantined _ = false

-- `quarantined_count`
unfoldable pub quarantined_count : String → Table → ℕ
quarantined_count tenant_id =
    count (λ (r : Mapping). is_quarantined r.status && r.tenant_id == tenant_id)

-- `active_canonical_ids`
unfoldable pub active_canonical_ids : String → String → Table → List String
active_canonical_ids tenant_id canonical_type t =
    map (λ (r : Mapping). r.canonical_id)
      (keep
        (λ r. is_active r.status && r.tenant_id == tenant_id && r.canonical_type == canonical_type)
        t)

module _ (as_uuid : String → Option String) where
  -- `create_mapping`
  unfoldable pub create_mapping :
      NewIds
      → String
      → String
      → String
      → String
      → String
      → ℕ
      → String
      → Table
      → Result MappingError Table
  unfolding is_of is_native
  create_mapping ids tenant_id legal_entity_id canonical_type canonical_id native_table native_id
        canonical_owner t =
      do
        well_formed (Identifiers.tenant_id tenant_id)
        well_formed (Identifiers.legal_entity_id legal_entity_id)
        raise_if (not (any (λ o. o == canonical_owner) canonical_owners)) unknown_owner
        uuid ← or_raise (as_uuid canonical_id) not_a_uuid
        insert_mapping
            (new_mapping ids tenant_id legal_entity_id canonical_type uuid native_table native_id
              canonical_owner)
            t

  -- the active row of a canonical resource
  unfoldable pub find_active :
      String → String → String → Table → Result MappingError (Option Mapping)
  find_active tenant_id canonical_type canonical_id t = do
    uuid ← or_raise (as_uuid canonical_id) not_a_uuid
    ok (find_where (is_of tenant_id canonical_type uuid) t)

  -- `find_native`
  unfoldable pub find_native :
      String → String → String → Table → Result MappingError (Option NativeRecordRef)
  unfolding find_active
  find_native tenant_id canonical_type canonical_id t = do
    found ← find_active tenant_id canonical_type canonical_id t
    ok (ref_of found)

  -- `erp_resource_id`
  unfoldable pub erp_resource_id :
      String → String → String → Table → Result MappingError (Option String)
  unfolding find_active
  erp_resource_id tenant_id canonical_type canonical_id t = do
    found ← find_active tenant_id canonical_type canonical_id t
    ok (resource_of found)
