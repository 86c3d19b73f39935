-- ===== src/Commands/Inserted.antt =====
-- A mapping that was created (Commands/Mappings.antt).
use baobab_erp.Common.{
  ℕ, ◌≡◌, refl, sym, String, Bool, true, false, ◌||◌, Option, none, some, [], ◌∷◌, ◌++◌, is_some,
  find_where, ok, ok_inj, unless-eq-ok, then-eq-ok, or_raise-eq-ok,
}
use baobab_erp.Identifiers
use baobab_erp.Commands.Mappings.{
  Mapping, Table, NewIds, unknown_owner, not_a_uuid, duplicate_mapping, is_of, is_native,
  well_formed, new_mapping, insert_mapping, create_mapping,
}

-- what an insertion establishes
pub record IsInserted (r : Mapping) (before after : Table) : Type 0 where
  pub new_resource : find_where (is_of r.tenant_id r.canonical_type r.canonical_id) before ≡ none
  pub new_native : find_where (is_native r.tenant_id r.native_table r.native_id) before ≡ none
  pub added : after ≡ before ++ r ∷ []

is_some-none : {A : Type 0} (x : Option A) → is_some x ≡ false → x ≡ none
is_some-none none h = refl
is_some-none (some a) h = absurd (cc h)

neither : (a b : Bool) → (a || b) ≡ false → (a ≡ false) × (b ≡ false)
neither false b h = (refl, h)
neither true b h = absurd (cc h)

pub insert_mapping-IsInserted :
    (r : Mapping) (t u : Table) → insert_mapping r t ≡ ok u → IsInserted r t u
insert_mapping-IsInserted r t u h =
    let (free, done) = unless-eq-ok _ duplicate_mapping _ h in
    let (a, b) = neither _ _ free in
    record {
      new_resource = is_some-none _ a;
      new_native = is_some-none _ b;
      added = sym (ok_inj done);
    }

module _ (as_uuid : String → Option String) where
  pub create_mapping-IsInserted :
      (ids : NewIds) (tenant entity kind id table : String) (native_id : ℕ) (owner : String)
      (t u : Table)
      → create_mapping as_uuid ids tenant entity kind id table native_id owner t ≡ ok u
      → (uuid : String) × (as_uuid id ≡ some uuid)
        × IsInserted (new_mapping ids tenant entity kind uuid table native_id owner) t u
  unfolding create_mapping
  create_mapping-IsInserted ids tenant entity kind id table native_id owner t u h =
      let (h1, r1) = then-eq-ok (well_formed (Identifiers.tenant_id tenant)) _ h in
      let (h2, r2) = then-eq-ok (well_formed (Identifiers.legal_entity_id entity)) _ r1 in
      let (h3, r3) = unless-eq-ok _ unknown_owner _ r2 in
      let (uuid, h4, r4) = or_raise-eq-ok (as_uuid id) not_a_uuid _ r3 in
      (uuid, h4, insert_mapping-IsInserted _ t u r4)
