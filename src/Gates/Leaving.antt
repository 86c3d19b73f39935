-- ===== src/Gates/Leaving.antt =====
-- The authority of a governed native action ends with it (Gates/Native.antt).
use baobab_erp.Common.{ℕ, String, ◌≡◌, refl, Bool, Option, none, some}
use baobab_erp.Json.{Value}
use baobab_erp.Egress.{TenantScope, Permits, with_native_action}
use baobab_erp.Gates.Decision.{LegalActorOperation}
use baobab_erp.Gates.Action.{Act}
use baobab_erp.Gates.Native.{NativeActionPolicy, is_exact, Clock, Authorities, perform_native}
use baobab_erp.Gates.Invariants.{Keeps, AuthoritiesKeep, governed-Keeps}

module _ {V : Type 0} where
  -- the native marker and the spent flag are those of `before`
  abbrev pub Kept : Permits × V → Permits × V → Type 0
  Kept before w = (w.0.native ≡ before.0.native) × (w.0.spent ≡ before.0.spent)

  with_native_action-Kept :
      {A : Type 0} (before : Permits × V) (scope : TenantScope) (action reference : String)
      (execute : Act (Permits × V) A)
      → Keeps (Kept before) (with_native_action scope action reference execute)
  unfolding with_native_action
  with_native_action-Kept before scope action reference execute (p, v) h = h

  -- However a governed native action ends, refused, failed or done, and whatever it ran, it leaves the
  -- native marker and the spent flag as they were, where the authorities do.
  pub perform_native-Kept :
      (valid_contract : String → Value → Bool) (read_time : Value → Option (Option ℕ)) {A : Type 0}
      (policy : Option NativeActionPolicy) (op : LegalActorOperation) (scope : TenantScope)
      (reference : String) (authorities : Authorities (Permits × V)) (clock : Clock)
      (execute : Act (Permits × V) A) (w : Permits × V)
      → AuthoritiesKeep (Kept w) authorities
      → Kept w
          (perform_native valid_contract read_time policy op scope reference authorities clock
            execute w).1
  unfolding perform_native
  perform_native-Kept valid_contract read_time none op scope reference authorities clock execute w
        keep =
      (refl, refl)
  perform_native-Kept valid_contract read_time (some policy) op scope reference authorities clock
        execute w keep =
      governed-Keeps (Kept w) valid_contract read_time (is_exact policy op scope reference)
        authorities op clock (with_native_action scope policy.action reference execute) keep
        (with_native_action-Kept w scope policy.action reference execute) w (refl, refl)
