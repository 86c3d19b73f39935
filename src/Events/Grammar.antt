-- ===== src/Events/Grammar.antt =====
-- The text grammars of the envelope: event types, idempotency keys, trace context, UUIDs and
-- absolute URIs (modules/events/cloudevent.py, with `uuid.UUID` and `urlsplit` as Python has them).
use mathlib.Core.List.{reverse}
use baobab_erp.Common.{
  ℕ, zero, suc, ◌-◌, String, nat_eq, length, keep, Bool, true, false, not, ◌&&◌, ◌||◌, List, [],
  ◌∷◌, ◌==◌, leb,
}
use baobab_erp.Text.{
  Regex, cls, seq, alt, star, opt, plus, times, lit, fullmatch, match_codes, codes,
}
use baobab_erp.Identifiers.{lower_digits}

-- `^com\.baobab-platform\.[a-z0-9]+(?:[.-][a-z0-9]+)*\.v[1-9][0-9]*$`
abbrev pub type_pattern : Regex
type_pattern = seq (lit "com.baobab-platform.") (
    seq (plus lower_digits) (
      seq (star (seq (cls ((b'.', b'.') ∷ (b'-', b'-') ∷ [])) (plus lower_digits)))
        (seq (lit ".v") (seq (cls ((b'1', b'9') ∷ [])) (star (cls ((b'0', b'9') ∷ [])))))))

-- `^[A-Za-z0-9][A-Za-z0-9._:-]*$`
abbrev pub alphanumeric : List (ℕ × ℕ)
alphanumeric = (b'A', b'Z') ∷ (b'a', b'z') ∷ (b'0', b'9') ∷ []

abbrev pub idempotency_pattern : Regex
idempotency_pattern =
    seq (cls alphanumeric)
      (star (cls ((b'.', b'.') ∷ (b'_', b'_') ∷ (b':', b':') ∷ (b'-', b'-') ∷ alphanumeric)))

-- `^00-(?!0{32})[0-9a-f]{32}-(?!0{16})[0-9a-f]{16}-[0-9a-f]{2}$`: the shape, and the two shapes
-- that the look-aheads rule out
abbrev pub hex : Regex
hex = cls ((b'0', b'9') ∷ (b'a', b'f') ∷ [])

abbrev pub trace_shape : Regex → Regex → Regex
trace_shape trace_id span_id =
    seq (lit "00-") (seq trace_id (seq (lit "-") (seq span_id (seq (lit "-") (times 2 hex)))))

unfoldable pub is_traceparent : String → Bool
unfolding fullmatch
is_traceparent value =
    fullmatch (trace_shape (times 32 hex) (times 16 hex)) value
    && not (fullmatch (trace_shape (times 32 (lit "0")) (times 16 hex)) value)
    && not (fullmatch (trace_shape (times 32 hex) (times 16 (lit "0"))) value)

-- `^[ -~]+$`
abbrev pub tracestate_pattern : Regex
tracestate_pattern = plus (cls ((0x20, 0x7e) ∷ []))

-- `value.replace(word, "")`; the number is how many characters of a match are still to be skipped
unfoldable pub is_prefix : List ℕ → List ℕ → Bool
is_prefix [] cs = true
is_prefix (w ∷ ws) [] = false
is_prefix (w ∷ ws) (c ∷ cs) = w == c && is_prefix ws cs

unfoldable pub drop_word : List ℕ → ℕ → List ℕ → List ℕ
unfolding is_prefix
drop_word w skip [] = []
drop_word w (suc skip) (c ∷ cs) = drop_word w skip cs
drop_word w zero (c ∷ cs) = elim (is_prefix w (c ∷ cs)) [
  | true ↦ drop_word w (length w - 1) cs
  | false ↦ c ∷ drop_word w zero cs
]

-- `value.lstrip(characters)`
unfoldable pub strip_left : (ℕ → Bool) → List ℕ → List ℕ
strip_left drop [] = []
strip_left drop (c ∷ cs) = elim (drop c) [ true ↦ strip_left drop cs | false ↦ c ∷ cs ]

abbrev pub is_brace : ℕ → Bool
is_brace c = c == b'{' || c == b'}'

-- the text that `uuid.UUID` reads as a number: without `urn:`, `uuid:`, outer braces and dashes
unfoldable pub uuid_digits : String → List ℕ
unfolding drop_word strip_left
uuid_digits value =
    let bare = drop_word (codes "uuid:") 0 (drop_word (codes "urn:") 0 (codes value)) in
    let inner = reverse (strip_left is_brace (reverse (strip_left is_brace bare))) in
    keep (λ c. not (c == b'-')) inner

-- what `int(digits, 16)` reads, where the number is not negative
abbrev pub space : Regex
space = star (cls ((9, 13) ∷ (28, 32) ∷ []))

abbrev pub number_of : Regex → Regex
number_of digit =
    seq (opt (seq (lit "0") (seq (cls ((b'x', b'x') ∷ (b'X', b'X') ∷ [])) (opt (lit "_")))))
      (seq digit (star (seq (opt (lit "_")) digit)))

abbrev pub any_hex : Regex
any_hex = cls ((b'0', b'9') ∷ (b'a', b'f') ∷ (b'A', b'F') ∷ [])

abbrev pub int_16_pattern : Regex
int_16_pattern = seq space (
    seq (alt (seq (opt (lit "+")) (number_of any_hex)) (seq (lit "-") (number_of (lit "0")))) space)

-- `uuid.UUID(value)` raises no ValueError
unfoldable pub is_uuid : String → Bool
unfolding uuid_digits match_codes
is_uuid value =
    let digits = uuid_digits value in length digits == 32 && match_codes int_16_pattern digits

-- `urlsplit(value).scheme` is not empty: control characters and spaces are stripped on the left,
-- tabs and line ends are removed, and what stands before the first colon is a scheme
abbrev pub scheme_pattern : Regex
scheme_pattern = seq (cls ((b'A', b'Z') ∷ (b'a', b'z') ∷ [])) (
    seq (star (cls ((b'+', b'+') ∷ (b'-', b'-') ∷ (b'.', b'.') ∷ alphanumeric)))
      (seq (lit ":") (star (cls ((0, 0x10ffff) ∷ [])))))

abbrev pub is_control : ℕ → Bool
is_control c = leb c 0x20

unfoldable pub has_scheme : String → Bool
unfolding strip_left match_codes
has_scheme value =
    match_codes scheme_pattern
      (keep (λ c. not (c == 9 || c == 10 || c == 13)) (strip_left is_control (codes value)))
