-- ===== src/Events/Registry.antt =====
-- The event types that ERP may produce or consume (modules/events/registry.py).
use Prim.Native.String.{len, slice}
use text.Mathlib.Text.{starts_with}
use baobab_erp.Common.{
  String, ◌<>◌, string_eq, Option, none, some, List, [], ◌∷◌, ◌==◌, if◌then◌else◌,
}

abbrev pub contract_host : String
contract_host = "https://contracts.baobab-platform.com/"

abbrev pub erp_source : String
erp_source = "urn:baobab-platform:service:baobab-erp"

abbrev pub source_prefix : String
source_prefix = "urn:baobab-platform:service:"

-- `_erp`
unfoldable pub erp_schema : String → String
erp_schema schema = contract_host <> "erp/v1/" <> schema <> ".schema.json"

-- a Python dict with text keys, read by `get` and `in`
unfoldable pub lookup {ℓ} : {V : Type ℓ} → String → List (String × V) → Option V
lookup k [] = none
lookup k ((j, v) ∷ entries) = if j == k then some v else lookup k entries

unfoldable pub produced : List (String × String)
unfolding erp_schema
produced =
    (
      "com.baobab-platform.erp.business-partner.changed.v1",
      erp_schema "business-partner-projection",
    )
    ∷ (
      "com.baobab-platform.erp.inventory.availability-changed.v1",
      erp_schema "inventory-availability",
    )
    ∷ ("com.baobab-platform.erp.invoice.changed.v1", erp_schema "invoice-outcome")
    ∷ (
      "com.baobab-platform.erp.order.consequence-changed.v1",
      erp_schema "order-consequence-status",
    )
    ∷ ("com.baobab-platform.erp.payment.accounting-changed.v1", erp_schema "payment-outcome")
    ∷ ("com.baobab-platform.erp.provisioning.changed.v1", erp_schema "provisioning-state")
    ∷ ("com.baobab-platform.erp.warehouse.changed.v1", erp_schema "warehouse-projection")
    ∷ (
      "com.baobab-platform.customer.buyer-commercial-profile.changed.v1",
      contract_host
          <> "buyer-organisation/v1/events.schema.json#/$defs/buyerCommercialProfileChangedEventData",
    )
    ∷ []

-- type -> (payload schema, producing repository without its `baobab-` prefix)
unfoldable pub consumed : List (String × (String × String))
unfolding erp_schema
consumed =
    (
      "com.baobab-platform.trade.order.placed.v1",
      (erp_schema "commerce-order-consequence", "baobab-trade"),
    )
    ∷ (
      "com.baobab-platform.trade.customer.projected.v1",
      (erp_schema "customer-projection", "baobab-trade"),
    )
    ∷ []

-- None stands for the KeyError
unfoldable pub dataschema_for : String → Option String
dataschema_for event_type = elim (lookup event_type produced) [
  | some uri ↦ some uri
  | none ↦ elim (lookup event_type consumed) [ none ↦ none | some entry ↦ some entry.0 ]
]

-- `value.removeprefix(prefix)`
unfoldable pub remove_prefix : String → String → String
remove_prefix prefix value =
    if starts_with value prefix then slice value (len prefix) (len value) else value

unfoldable pub accepted_sources : String → List String
unfolding remove_prefix
accepted_sources producer_repository =
    (source_prefix <> producer_repository)
    ∷ (source_prefix <> remove_prefix "baobab-" producer_repository)
    ∷ []
