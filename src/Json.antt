-- ===== src/Json.antt =====
-- JSON values as Python's `json` yields them: the `Any` and `object` of the sources. A float is
-- kept as its text; an object keeps its members in order.
use baobab_erp.Common.{
  ℕ, String, string_eq, Bool, true, false, Option, none, some, ◌==◌, if◌then◌else◌,
}

mutual
  pub data Value : Type 0 where
    null : Value
    bool : Bool → Value
    int : ℕ → Value
    minus : ℕ → Value
    real : String → Value
    text : String → Value
    obj : Fields → Value
    arr : Items → Value

  -- the members of an object
  pub data Fields : Type 0 where
    end : Fields
    field : String → Value → Fields → Fields

  -- the elements of an array
  pub data Items : Type 0 where
    stop : Items
    item : Value → Items → Items

-- `data.get(name)`, before the default
unfoldable pub member : String → Fields → Option Value
member k end = none
member k (field j v fs) = if j == k then some v else member k fs

-- `data.get(name)`: None when the member is absent, which a null member is too
unfoldable pub get : String → Fields → Value
unfolding member
get k fs = elim (member k fs) [ none ↦ null | some v ↦ v ]

abbrev pub is_dict : Value → Bool
is_dict (obj _) = true
is_dict _ = false

abbrev pub is_text : Value → Bool
is_text (text _) = true
is_text _ = false

-- `value is False`
abbrev pub is_false : Value → Bool
is_false (bool false) = true
is_false _ = false

-- `value == s` for a text `s`
abbrev pub equals_text : Value → String → Bool
equals_text (text t) s = t == s
equals_text _ s = false
