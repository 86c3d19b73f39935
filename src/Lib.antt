-- ===== src/Lib.antt =====
-- Verification of the application services of Baobab ERP (modules/).
--
-- The services stand between a commerce platform and the iDempiere engine. Events come in signed, are
-- checked and recorded once in the inbox, claimed by workers under leases, executed, and settled; what
-- ERP observes while it executes is kept in read models, and recorded as events in the transactional
-- outbox, which a dispatcher delivers.
--
-- Text         texts as code points, and regular expressions (Python's re): Text/Match proves that the
--              matching engine decides the language of a pattern
-- Json         JSON values as Python's json yields them
-- Identifiers  modules/mapping/identifiers.py: tenant_id, legal_entity_id, mapping_id, erp_resource_id
-- Security     modules/security/signing.py: sign_body, verify_signature
-- Events       modules/events/: CloudEvent.validate, new_event and check_consumable as Events/Envelope,
--              to_wire and from_wire as Events/Wire, registry.py as Events/Registry
-- Outbox       modules/outbox/postgres_store.py as Outbox/Store (record, record_event, pending and the
--              three marks) and Outbox/Stats (stats), modules/outbox/service.py as
--              Outbox/Policy and Outbox/Dispatch. The table is a list of rows; the transport's
--              answers and the clocks are a Reaction per record.
--              Outbox/Refinement gives one pass row by row, Outbox/Passes passes one after the
--              other, Outbox/Delivery and Outbox/Retries what follows from them, and
--              Outbox/Recording what may enter the table.
-- Inbox        modules/inbox/service.py and postgres_store.py as Inbox/Receipt, postgres_queue.py as
--              Inbox/Queue (claim, processed, release), execution_support.settle as Inbox/Attempt, and
--              the budgets of modules/order_to_cash/execution_policy.py as Inbox/Policy. Workers'
--              transactions in any order are the step relation of Inbox/Workers.
-- Orders       modules/order_to_cash/consequence.py and consequence_store.py as Orders/Consequence,
--              the status rules of accounting_outcomes.py and outcome_store.py as Orders/Outcomes,
--              placed_order.parse_placed_order as Orders/Placed, sales_order_fields as Orders/Draft;
--              Orders/Later is what later statements of the consequence store keep of a record
-- Egress       modules/integration/native_finance_guard.py as Egress/Guard (its paths as Egress/Paths),
--              the context variables of it and of modules/order_to_cash/service.py as Egress/Scopes,
--              _call and _raw_request of modules/integration/idempiere_client.py as Egress/Client,
--              and its query as Egress/Query
-- Gates        modules/order_to_cash/legal_actor_gate.py: assert_current_decision as Gates/Decision and
--              perform_governed_financial_action as Gates/Action, over a world that the ports and the
--              native action share; documentary_restriction.py as Gates/Documentary and its request to
--              the control plane as Gates/ControlPlane; native_action_gate.py and governed_service.py
--              as Gates/Native
-- Execution    modules/order_to_cash/inbox_execution.py: _resolve_lines, _verify_units and
--              _find_or_create as Execution/Native, _execute and run_claim as Execution/Attempt, over
--              what the worker injects (Execution/Env) and the rows of one transaction (Execution/Rows);
--              consequence_events.py as Execution/Announcement; the look-ups and the failures of
--              modules/inbox/execution_support.py as Execution/World. A session is the committed
--              database and what its open transaction sees.
-- Commands     modules/order_to_cash/service.py: the nine commands as Commands/Documents, their shared
--              steps as Commands/Ledger over the stores of Commands/Stores, _announce_invoice and
--              _announce_payment as Commands/Outcomes; modules/mapping/postgres_store.py as Commands/Mappings; what accounting_outcomes.py reads
--              of the engine as Commands/Accounts and its events as Commands/Notices.
--              Commands/Steps lists the seven kinds of statements that commands are made of, and a
--              relation that these keep is kept by commands (Commands/Whole).
-- Customers    modules/customers/payload.py as Customers/Payload
-- Provisioning modules/provisioning/lifecycle.py as Provisioning/Lifecycle, command_state.py as
--              Provisioning/CommandState
--
-- Interaction: Inbox/Receipt uses Events and Security to admit an event and adds a row to the table
-- that Inbox/Queue claims from; Inbox/Attempt settles through Inbox/Queue; Outbox/Store checks what it
-- records and what it reads with Events. An attempt of Execution reads the payload with Orders, asks
-- the engine under the permit of Gates that Egress checks on every request, writes its rows with Orders,
-- Outbox and Inbox/Queue in one transaction, and is settled by Inbox/Attempt. A command runs under the
-- same permits, and works on the mappings, the read models of Orders and the Outbox.
--
-- Loops are structural recursion over the rows or the words. Only the pages of a query run on fuel, 51
-- of them: a page that does not end the loop brings 100 records, and more than 5,000 are an error. The
-- eight delivery attempts, the 24 execution attempts and the horizons of 72 hours are the source's constants. Instants
-- and durations are natural numbers of microseconds or seconds. `attempts - 1` in a refund is the
-- natural subtraction: a claimed row has counted at least one attempt.
--
-- Parameters stand for HMAC, JSON, URL, UUID, date-time and Decimal functions of Python's library, for
-- the JSON schema validator, for the database's cast of a text to a UUID in the inbox, and for the HTTP
-- connection to the engine. The engine is an interface of three calls; where a theorem needs it, KeepsOrders states that a query finds every order of its
-- reference and that a creation adds one. A database transaction is a function on tables at the
-- database's time; rows that other transactions hold locked are given as a list of ids, and the lock of
-- an order as a test whether it is free. Not modelled: the attempt at
-- a customer's projection, the execution of provisioning, the tenant context and inventory. Outside the library: HTTP servers
-- and clients, process entry points, the SQL migrations and the Java extensions.
pub mod Common
pub mod Text
pub mod Json
pub mod Identifiers
pub mod Events
pub mod Outbox
pub mod Inbox
pub mod Security
pub mod Egress
pub mod Orders
pub mod Gates
pub mod Execution
pub mod Commands
pub mod Customers
pub mod Provisioning
