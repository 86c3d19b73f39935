-- ===== src/Egress/Authority.antt =====
-- What the egress guard establishes (Egress/Guard.antt).
use baobab_erp.Common.{
  ℕ, ◌≤◌, String, string_eq, ◌≡◌, refl, sym, ap, ◌∙◌, Bool, true, false, not, ◌&&◌, ◌||◌, Option,
  none, some, List, [], ◌∷◌, ◌==◌, leb, bind-eq-ok, eq_law, any, arith, ok, then-eq-ok, true_of_not,
  unless-eq-ok, or_raise-eq-ok, if◌then◌else◌,
}
use baobab_erp.Json.{Value, Fields, get, member, equals_text}
use baobab_erp.Egress.Scopes.{NativeMarker, Permits}
use baobab_erp.Egress.Guard.{
  denied, agrees, Company, Host, creation_action, is_bound, native_bound, reference_of,
  same_request, is_finance_table, process_action, is_plain, present_keys, required_keys, keys_are,
  is_record_id, has_status, is_mutation, require_exact, request_for, check_creation, check_process,
  check_target, parts_of, is_governed, require_authority, process_bound, is_configured,
}

module _ (host : Host) where
  -- what is left of the permits
  abbrev pub after : Bool → Permits → Permits
  after consume p = if consume then record p { request = none; spent = true } else p

  -- the permit for this very request is there, and is not spent
  pub record IsPermitted (method path : String) (body : Fields) (p : Permits) : Type 0 where
    pub exact : same_request p.request (request_for host method path body) ≡ true
    pub fresh : p.spent ≡ false

  pub require_authority-IsPermitted :
      (method path : String) (body : Fields) (c : Company) (consume : Bool) (p : Permits)
      {q : Permits}
      → is_mutation host.upper method ≡ true
      → is_governed (parts_of host path) ≡ true
      → require_authority host true method path body c consume p ≡ ok q
      → (check_target host method (parts_of host path) (host.urlsplit path) body c p ≡ ok tt)
        × IsPermitted method path body p
        × (q ≡ after consume p)
  unfolding require_authority require_exact
  require_authority-IsPermitted method path body c consume p {q} mutates governed h =
      let (checked, exact) =
        then-eq-ok (check_target host method (parts_of host path) (host.urlsplit path) body c p) _
          (rw (mutates, governed) at h) in
      (checked, ground arith, ground arith)

  -- a record is created under the marker of the action for its table and of the credentials' company,
  -- which for an order names its reference; the body sets no status, and a company that it names is
  -- that of the credentials
  pub record CreationIsGranted (method : String) (rest : List String) (body : Fields) (c : Company)
      (p : Permits) : Type 0 where
    pub posts : method ≡ "POST"
    pub table : String
    pub to_table : rest ≡ table ∷ []
    pub marker : NativeMarker
    pub marked : p.native ≡ some marker
    pub action : creation_action (host.upper table) ≡ some marker.action
    pub company : is_bound marker.scope c ≡ true
    pub reference :
        (not (host.upper table == "C_ORDER")
          || equals_text (get "POReference" body) marker.reference)
        ≡ true
    pub statusless : has_status host.upper body ≡ false
    pub client : agrees (member "AD_Client_ID" body) c.client_id ≡ true
    pub organization : agrees (member "AD_Org_ID" body) c.organization_id ≡ true

  native_bound-marker :
      (o : Option NativeMarker) (c : Company) (action : String)
      → native_bound o c action ≡ true
      → (m : NativeMarker) × (o ≡ some m) × (is_bound m.scope c ≡ true) × (m.action ≡ action)
  unfolding native_bound
  native_bound-marker none c action h = absurd (cc h)
  native_bound-marker (some m) c action h =
      (m, refl, ground arith, ground (arith, eq_law m.action action))

  reference_lem :
      (o : Option NativeMarker) (m : NativeMarker) (is_order : Bool) (v : Value)
      → o ≡ some m
      → (is_order && not (equals_text v (reference_of o))) ≡ false
      → (not is_order || equals_text v m.reference) ≡ true
  reference_lem o m is_order v e h = ground arith

  both_true : (a b : Bool) → (not a || not b) ≡ false → (a ≡ true) × (b ≡ true)
  both_true a b h = (ground arith, ground arith)

  check_creation-IsGranted :
      (method : String) (rest : List String) (body : Fields) (c : Company) (p : Permits)
      → check_creation host method rest body c p ≡ ok tt
      → CreationIsGranted method rest body c p
  unfolding check_creation native_bound
  check_creation-IsGranted method [] body c p h = absurd (ground (arith, h))
  check_creation-IsGranted method (table ∷ x ∷ xs) body c p h =
      let (_, h1) = unless-eq-ok (not (is_finance_table (host.upper table))) denied _ h in
      let (_, h2) = unless-eq-ok (not (method == "POST")) denied _ h1 in absurd (cc h2)
  check_creation-IsGranted method (table ∷ []) body c p h =
      let (_, h1) = unless-eq-ok (not (is_finance_table (host.upper table))) denied _ h in
      let (posts, h2) = unless-eq-ok (not (method == "POST")) denied _ h1 in
      let (action, of_table, h3) =
        or_raise-eq-ok (creation_action (host.upper table)) denied _ h2 in
      let (bound, h4) = unless-eq-ok (not (native_bound p.native c action)) denied _ h3 in
      let (reference, h5) =
        unless-eq-ok
          (host.upper table == "C_ORDER"
            && not (equals_text (get "POReference" body) (reference_of p.native)))
          denied _ h4 in
      let (statusless, h6) = unless-eq-ok (has_status host.upper body) denied _ h5 in
      let (in_company, _) =
        unless-eq-ok
          (not (agrees (member "AD_Client_ID" body) c.client_id)
            || not (agrees (member "AD_Org_ID" body) c.organization_id))
          denied _ h6 in
      let (client, organization) = both_true _ _ in_company in
      let (m, there, company, same) = native_bound-marker p.native c action (true_of_not _ bound) in
      record {
        posts = (eq_law method "POST").0 (true_of_not _ posts);
        table = table;
        to_table = refl;
        marker = m;
        marked = there;
        action = of_table ∙ ap some (sym same);
        company = company;
        reference = reference_lem p.native m _ _ there reference;
        statusless = statusless;
        client = client;
        organization = organization;
      }

  -- the process is the one that the installation configures for the action, the body holds what the
  -- action needs and nothing else, every id in it a record id, and the marker is for the action and the
  -- credentials' company
  pub record ProcessIsGranted (method : String) (rest : List String) (body : Fields) (c : Company)
      (p : Permits) : Type 0 where
    pub posts : method ≡ "POST"
    pub id : String
    pub to_process : rest ≡ id ∷ []
    pub called : ℕ
    pub number : host.digits id ≡ some called
    pub positive : 1 ≤ called
    pub records : any (λ k. not (is_record_id (member k body))) (present_keys body) ≡ false
    pub action : String
    pub of_body : process_action (present_keys body) body ≡ ok action
    pub configured : is_configured host action called ≡ true
    pub exactly : keys_are (required_keys action (present_keys body)) body ≡ true
    pub company : process_bound action c p ≡ true

  check_process-IsGranted :
      (method : String) (rest : List String) (body : Fields) (c : Company) (p : Permits)
      {a : String}
      → check_process host method rest body c p ≡ ok a
      → ProcessIsGranted method rest body c p
  unfolding check_process
  check_process-IsGranted method [] body c p h = absurd (cc h)
  check_process-IsGranted method (id ∷ x ∷ xs) body c p h = absurd (cc h)
  check_process-IsGranted method (id ∷ []) body c p h =
      let (posts, h1) = unless-eq-ok (not (method == "POST")) denied _ h in
      let (called, number, h2) = or_raise-eq-ok (host.digits id) denied _ h1 in
      let (positive, h3) = unless-eq-ok (not (leb 1 called)) denied _ h2 in
      let (records, h4) =
        unless-eq-ok (any (λ k. not (is_record_id (member k body))) (present_keys body)) denied _
          h3 in
      let (action, of_body, h5) = bind-eq-ok (process_action (present_keys body) body) _ h4 in
      let (configured, h6) = unless-eq-ok (not (is_configured host action called)) denied _ h5 in
      let (exactly, h7) =
        unless-eq-ok (not (keys_are (required_keys action (present_keys body)) body)) denied _ h6 in
      let (company, _) = unless-eq-ok (not (process_bound action c p)) denied _ h7 in
      record {
        posts = (eq_law method "POST").0 (true_of_not _ posts);
        id = id;
        to_process = refl;
        called = called;
        number = number;
        positive = ground (arith, positive);
        records = records;
        action = action;
        of_body = of_body;
        configured = true_of_not _ configured;
        exactly = true_of_not _ exactly;
        company = true_of_not _ company;
      }

  -- A protected runtime lets a mutating request to a model through only as the creation of a record
  -- under its action's marker and a fresh permit for this very request, which it spends when it
  -- consumes.
  pub models_request-CreationIsGranted :
      (method path : String) (rest : List String) (body : Fields) (c : Company) (consume : Bool)
      (p : Permits) {q : Permits}
      → is_mutation host.upper method ≡ true
      → parts_of host path ≡ "models" ∷ rest
      → require_authority host true method path body c consume p ≡ ok q
      → CreationIsGranted method rest body c p
        × IsPermitted method path body p
        × (q ≡ after consume p)
  unfolding check_target
  models_request-CreationIsGranted method path rest body c consume p mutates parts h =
      let (checked, permitted, spent) =
        require_authority-IsPermitted method path body c consume p mutates (rw parts) h in
      let (_, created) =
        unless-eq-ok (not (is_plain (host.urlsplit path))) denied _ (rw parts at checked) in
      (check_creation-IsGranted method rest body c p created, permitted, spent)

  -- A protected runtime lets a mutating request to a process through only for the process that it
  -- configures for an action, with exactly the action's parameters, under the action's marker and a
  -- fresh permit for this very request, which it spends when it consumes.
  pub processes_request-ProcessIsGranted :
      (method path : String) (rest : List String) (body : Fields) (c : Company) (consume : Bool)
      (p : Permits) {q : Permits}
      → is_mutation host.upper method ≡ true
      → parts_of host path ≡ "processes" ∷ rest
      → require_authority host true method path body c consume p ≡ ok q
      → ProcessIsGranted method rest body c p
        × IsPermitted method path body p
        × (q ≡ after consume p)
  unfolding check_target
  processes_request-ProcessIsGranted method path rest body c consume p mutates parts h =
      let (checked, permitted, spent) =
        require_authority-IsPermitted method path body c consume p mutates (rw parts) h in
      let (_, executed) =
        unless-eq-ok (not (is_plain (host.urlsplit path))) denied _ (rw parts at checked) in
      let (_, h2, _) = bind-eq-ok (check_process host method rest body c p) _ executed in
      (check_process-IsGranted method rest body c p h2, permitted, spent)
