-- ===== src/Commands/Accounts.antt =====
-- What ERP reads back of invoices and payments (`_code`, `_flag`, `_money`, `read_invoice` and
-- `read_payment` of modules/order_to_cash/accounting_outcomes.py).
use baobab_erp.Common.{
  ℕ, String, string_eq, Bool, false, not, ◌&&◌, ◌||◌, Option, none, some, [], ◌∷◌, ◌==◌, leb, eqb,
  any, Result, ok, err, or_raise, raise_if, if◌then◌else◌,
}
use baobab_erp.Text.{len}
use baobab_erp.Json.{Value, Fields, bool, text, obj, member, get, equals_text}
use baobab_erp.Egress.{Call, ClientError}
use baobab_erp.Orders.{Money, InvoiceFacts, PaymentFacts, Number, in_range}
use baobab_erp.Execution.World.{reference}
use baobab_erp.Commands.Calls.{◌>>=◌, ◌>>◌, give, check}

-- what the code takes from Python: the number of a text that `isdigit` takes, `str(v).strip().lower()`,
-- the texts that are blank and in capitals, `Decimal(str(v))`, `int(v)` where it returns a natural
-- number, and the text of an amount with so many places
pub record Python : Type 0 where
  pub digits : String → Option ℕ
  pub flag_text : Value → String
  pub is_blank : String → Bool
  pub is_upper : String → Bool
  pub decimal_of : Value → Option Number
  pub places_of : Value → Option ℕ
  pub quantized : Value → ℕ → Option String

-- AccountingFactError, a failure of the engine, or another exception
pub data ReadError : Type 0 where
  fact_error : ReadError
  not_read : ClientError → ReadError
  not_quantized : ReadError

-- a column that is a list or a reference comes as an object with its `id`
abbrev plain : Value → Value
plain (obj fs) = get "id" fs
plain v = v

-- `_code(value) in _COMPLETED`
abbrev is_completed : Value → Bool
is_completed v = equals_text (plain v) "CO" || equals_text (plain v) "CL"

module _ (python : Python) where
  -- `_flag`, of a column that may be missing
  unfoldable pub flag : Option Value → Bool
  flag none = false
  flag (some (bool b)) = b
  flag (some v) = any (λ t. t == python.flag_text v) ("true" ∷ "y" ∷ "yes" ∷ "1" ∷ [])

  abbrev precision : Option Value → Option ℕ
  precision none = some 2
  precision (some v) = python.places_of v

  abbrev is_code : Value → Option String
  is_code (text s) = if eqb (len s) 3 && python.is_upper s then some s else none
  is_code _ = none

  abbrev number_of : Value → Option String
  number_of (text s) = if not (python.is_blank s) && leb (len s) 96 then some s else none
  number_of _ = none

  module _ {N : Type 0} (get_record : String → ℕ → Call ClientError N Fields) where
    abbrev read_error : {A : Type 0} → Result ClientError A × N → Result ReadError A × N
    read_error (ok a, n) = (ok a, n)
    read_error (err e, n) = (err (not_read e), n)

    abbrev read_row : String → ℕ → Call ReadError N Fields
    read_row table id n = read_error (get_record table id n)

    -- `_money`
    unfoldable pub money_of : Value → Value → Call ReadError N Money
    unfolding get member
    money_of amount currency_ref = do
      id ← check (or_raise (reference python.digits currency_ref) fact_error)
      currency ← read_row "C_Currency" id
      iso ← check (or_raise (is_code (get "ISO_Code" currency)) fact_error)
      number ← check (or_raise (python.decimal_of amount) fact_error)
      places ← check (or_raise (precision (member "StdPrecision" currency)) fact_error)
      check (raise_if (not (in_range false number && leb places 6)) fact_error)
      written ← check (or_raise (python.quantized amount places) not_quantized)
      give (record { amount = written; currency = iso })

    -- `read_invoice`
    unfoldable pub read_invoice : ℕ → Call ReadError N InvoiceFacts
    unfolding get member flag money_of
    read_invoice native_id = do
      row ← read_row "C_Invoice" native_id
      number ← check (or_raise (number_of (get "DocumentNo" row)) fact_error)
      total ← money_of (get "GrandTotal" row) (get "C_Currency_ID" row)
      give (record {
        number = number;
        total = total;
        completed = is_completed (get "DocStatus" row);
        paid = flag (member "IsPaid" row);
      })

    -- `read_payment`
    unfoldable pub read_payment : ℕ → Call ReadError N PaymentFacts
    unfolding get member flag money_of
    read_payment native_id = do
      row ← read_row "C_Payment" native_id
      amount ← money_of (get "PayAmt" row) (get "C_Currency_ID" row)
      give (record {
        amount = amount;
        completed = is_completed (get "DocStatus" row);
        fully_allocated = flag (member "IsAllocated" row);
      })
