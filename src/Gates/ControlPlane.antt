-- ===== src/Gates/ControlPlane.antt =====
-- The client that asks the control plane for a documentary restriction
-- (`HttpControlPlaneDocumentaryRestrictionAssessor` of
-- modules/order_to_cash/documentary_restriction.py). The HTTP exchange is a parameter.
use baobab_erp.Common.{
  ℕ, String, string_eq, nat_eq, Bool, true, false, not, ◌&&◌, ◌||◌, Option, List, [], ◌∷◌, ◌==◌,
  any, all, leb, ltb, length, is_some, Result, ok, err, ◌>>=◌, ◌>>◌, raise_if, or_raise,
  if◌then◌else◌,
}
use baobab_erp.Text.{Regex, cls, seq, star, times, fullmatch, len}
use baobab_erp.Json.{Value, Fields, text, obj, end, field, member, get, is_dict}
use baobab_erp.Gates.Decision.{GateError, not_authorised}
use baobab_erp.Gates.Action.{Act, continue_with, check}

-- the parts of the control plane's URL that the client checks, as `urlsplit` yields them
pub record Origin : Type 0 where
  pub scheme : String
  pub hostname : String
  pub netloc : String
  pub path : String
  pub has_credentials : Bool
  pub query : String
  pub fragment : String

-- the constructor of `HttpControlPlaneDocumentaryRestrictionAssessor` does not raise; the timeout is
-- in milliseconds
unfoldable pub is_acceptable_origin : Origin → ℕ → Bool
is_acceptable_origin o timeout = not (
    (not (o.scheme == "https") && not (o.scheme == "http" && o.hostname == "localhost"))
    || o.has_credentials
    || not (o.query == "")
    || not (o.fragment == "")
    || o.netloc == ""
    || not (o.path == "" || o.path == "/")
    || not (leb 1 timeout)
    || ltb 10_000 timeout)

-- `[a-z][a-z0-9._-]{2,199}`, its bounds as a test of the length
abbrev capability_pattern : Regex
capability_pattern =
    seq (cls ((b'a', b'z') ∷ []))
      (star (cls ((b'a', b'z') ∷ (b'0', b'9') ∷ (b'.', b'.') ∷ (b'_', b'_') ∷ (b'-', b'-') ∷ [])))

unfoldable pub is_capability : String → Bool
unfolding fullmatch len
is_capability s = leb 3 (len s) && leb (len s) 200 && fullmatch capability_pattern s

abbrev pub request_keys : List String
request_keys = "context_id" ∷ "capability" ∷ "market" ∷ "operation_reference" ∷ []

unfoldable pub only_request_keys : Fields → Bool
only_request_keys end = true
only_request_keys (field k v fs) = any (λ n. n == k) request_keys && only_request_keys fs

-- the reply to a request: its status and its body
pub record Reply : Type 0 where
  pub status : ℕ
  pub body : List ℕ

-- the callables of the client and the HTTP exchange; `is_blank` tells `not value.strip()` and
-- `loads` parses bytes as JSON, where a member that stands twice is an error
pub record Service (W : Type 0) : Type 0 where
  pub token : Act W String
  pub correlation : Act W String
  pub exchange : String → String → Fields → Act W Reply
  pub is_blank : String → Bool
  pub loads : List ℕ → Option Value

abbrev pub max_reply : ℕ
max_reply = 16_384

module _ (valid_contract : String → Value → Bool) {W : Type 0} (service : Service W) where
  unfoldable pub filled : Fields → Bool
  filled end = true
  filled (field k (text s) fs) = not (service.is_blank s) && filled fs
  filled (field k _ fs) = false

  unfoldable pub is_scope_request : Fields → Bool
  unfolding only_request_keys filled is_capability fullmatch get member
  is_scope_request request =
      valid_contract "documentary_request" (obj request)
      && only_request_keys request
      && all (λ k. is_some (member k request)) request_keys
      && filled request
      && elim (get "market" request) [
        | text market ↦ fullmatch (times 2 (cls ((b'A', b'Z') ∷ []))) market
        | _ ↦ false
      ]
      && elim (get "capability" request) [ text c ↦ is_capability c | _ ↦ false ]

  -- what the client accepts of a reply
  unfoldable pub read_reply : Reply → Result GateError Value
  read_reply reply = do
    raise_if (not (reply.status == 200)) not_authorised
    raise_if (ltb max_reply (length reply.body)) not_authorised
    value ← or_raise (service.loads reply.body) not_authorised
    raise_if (not (valid_contract "documentary_response" value)) not_authorised
    raise_if (not (is_dict value)) not_authorised
    ok value

  -- every exception is a refusal
  abbrev pub refusing : {A : Type 0} → Result GateError A × W → Result GateError A × W
  refusing (ok a, w) = (ok a, w)
  refusing (err e, w) = (err not_authorised, w)

  -- the exchange with the control plane
  unfoldable pub ask : Fields → Act W Value
  unfolding read_reply
  ask request w = continue_with (service.token w) λ token w1.
      continue_with (service.correlation w1) λ correlation w2.
        continue_with
          (check (raise_if (service.is_blank token || correlation == "") not_authorised) w2)
          λ known w3.
            continue_with (service.exchange token correlation request w3)
              λ reply. check (read_reply reply)

  -- `assess`
  unfoldable pub assess : Fields → Act W Value
  unfolding is_scope_request ask
  assess request w =
      if is_scope_request request then refusing (ask request w) else (err not_authorised, w)
