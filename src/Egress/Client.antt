-- ===== src/Egress/Client.antt =====
-- Requests to the engine (`_call` and `_raw_request` of modules/integration/idempiere_client.py).
-- The world counts the requests that were sent after authentication; `V` is all else. Authentication
-- and the transport are parameters.
use baobab_erp.Common.{ℕ, suc, String, Bool, true, false, List, [], ◌∷◌, Result, ok, err}
use baobab_erp.Json.{Value, Fields}
use baobab_erp.Egress.Scopes.{Permits, Request, Call, with_request}
use baobab_erp.Egress.Guard.{Company, Denied, denied, Host, request_for, require_authority}

-- IdempiereClientError and its subclasses
pub data ClientError : Type 0 where
  mutation_denied : ClientError  -- NativeFinancialMutationDenied
  unauthenticated : ClientError  -- IdempiereAuthenticationError, on HTTP 401 or a failed login
  api_error : ℕ → ClientError  -- IdempiereApiError, with its HTTP status
  unreachable : ClientError

abbrev pub World : Type 0 → Type 0
World V = Permits × (ℕ × V)

-- what the transport answers to a request with a token
pub record Transport (V : Type 0) : Type 0 where
  pub ensure_token : V → Result ClientError String × V
  pub authenticate : V → Result ClientError String × V
  pub send : Request → Fields → String → V → Result ClientError Value × V

-- a refusal is raised, and what is left of the permits is kept
abbrev pub admitted :
    {V : Type 0} → Result Denied Permits → World V → Result ClientError (Unit {0}) × World V
admitted (ok q) w = (ok tt, (q, w.1))
admitted (err denied) w = (err mutation_denied, w)

module _ {V A : Type 0} where
  -- authentication leaves the permits and the count
  unfoldable pub beside : (V → Result ClientError A × V) → Call ClientError (World V) A
  beside act (p, (n, v)) = let (r, w) = act v in (r, (p, (n, w)))

  -- `try` with a handler for IdempiereAuthenticationError
  abbrev pub on_unauthenticated :
      Result ClientError A × World V → Call ClientError (World V) A → Result ClientError A × World V
  on_unauthenticated (err unauthenticated, w) retry = retry w
  on_unauthenticated other retry = other

module _ {V A B : Type 0} where
  abbrev pub continue_with :
      Result ClientError A × World V
      → (A → Call ClientError (World V) B)
      → Result ClientError B × World V
  continue_with (ok a, w) next = next a w
  continue_with (err e, w) next = (err e, w)

module _ (host : Host) (protected : Bool) (company : Company) {V : Type 0}
    (transport : Transport V) where
  -- the guard, as a call
  unfoldable pub guarded : String → String → Fields → Bool → Call ClientError (World V) (Unit {0})
  guarded method path body consume w =
      admitted (require_authority host protected method path body company consume w.0) w

  unfoldable pub sent : String → String → Fields → String → Call ClientError (World V) Value
  sent method path body token (p, (n, v)) =
      let (r, w) = transport.send (request_for host method path body) body token v in
      (r, (p, (suc n, w)))

  -- `_raw_request`
  unfoldable pub raw_request : String → String → Fields → String → Call ClientError (World V) Value
  unfolding guarded sent
  raw_request method path body token w =
      continue_with (guarded method path body true w) (λ _. sent method path body token)

  -- `_call`
  unfoldable pub call : String → String → Fields → Call ClientError (World V) Value
  unfolding guarded beside raw_request
  call method path body w = continue_with (guarded method path body false w) (λ _ w1.
      continue_with (beside transport.ensure_token w1) (λ token w2.
        on_unauthenticated (raw_request method path body token w2) (λ w3.
          continue_with (beside transport.authenticate w3)
            (λ again. raw_request method path body again))))

  -- `create_record` and `execute_process` as the commands call them: each under the permit for its
  -- very request
  unfoldable pub permitted_call : String → String → Fields → Call ClientError (World V) Value
  unfolding call with_request
  permitted_call method path body =
      with_request (request_for host method path body) (call method path body)

  -- commands that are run one after the other, whatever becomes of each
  unfoldable pub run_all : List (String × (String × Fields)) → Call ClientError (World V) (Unit {0})
  unfolding permitted_call
  run_all [] w = (ok tt, w)
  run_all ((method, (path, body)) ∷ rest) w = run_all rest (permitted_call method path body w).1
