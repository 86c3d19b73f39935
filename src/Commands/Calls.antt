-- ===== src/Commands/Calls.antt =====
-- Calls that read and change a world and may raise: how the statements of a function follow each other.
use baobab_erp.Common.{Bool, true, false, Result, ok, err}
use baobab_erp.Egress.{Call}

module _ {E W A B : Type 0} where
  abbrev pub continue_with : Result E A × W → (A → Call E W B) → Result E B × W
  continue_with (ok a, w) next = next a w
  continue_with (err e, w) next = (err e, w)

  infixl 5 ◌>>=◌
  unfoldable pub ◌>>=◌ : Call E W A → (A → Call E W B) → Call E W B
  (call >>= next) w = continue_with (call w) next

module _ {E W B : Type 0} where
  infixl 5 ◌>>◌
  unfoldable pub ◌>>◌ : Call E W (Unit {0}) → Call E W B → Call E W B
  (call >> rest) w = continue_with (call w) (λ _. rest)

module _ {E W A : Type 0} where
  abbrev pub give : A → Call E W A
  give a w = (ok a, w)

  -- a value or an exception, without effect
  abbrev pub check : Result E A → Call E W A
  check r w = (r, w)

-- `if test: call`
abbrev pub when : {E W : Type 0} → Bool → Call E W (Unit {0}) → Call E W (Unit {0})
when true call w = call w
when false call w = (ok tt, w)
