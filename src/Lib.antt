-- ===== src/Lib.antt =====
-- ln_church_agent: a buyer-side runtime for HTTP 402 payments and for agent Tasks.
--
-- The program pays for HTTP resources within the budgets of a policy, and carries out Tasks whose
-- progress must survive crashes. A client (ln_church_agent/client.py) keeps a session ledger in its
-- PaymentPolicy; Task clients share an access-quota policy (ln_church_agent/access_quota.py) and
-- write durable journals (ln_church_agent/task_journal.py, ln_church_agent/immediate_visit_journal.py
-- and those of the other Task kinds) before every step that cannot be undone. An executor
-- (ln_church_agent/scheduled_http_get_batch.py) visits the targets of a batch between such writes,
-- and another one (ln_church_agent/paid_service_trial.py) buys from a third service. A grant
-- (ln_church_agent/grants.py) may replace a payment, a macaroon is checked before its invoice is
-- paid (ln_church_agent/payment_contract.py), and responses are read within bounds
-- (ln_church_agent/network_fetch.py).
--
-- Files and sources:
--   Common          Boolean tests, lists, dicts, and methods that may raise
--   Budget          the session ledger: PaymentPolicy, ExecutionContext and _PaymentOperation
--                   (ln_church_agent/models.py) and the methods of Payment402Client that use them
--                   (ln_church_agent/client.py). Types, Ledger: the data and the look-ups. Reserve:
--                   _check_session_budget, _reserve_, _confirm_, _release_session_budget,
--                   _mark_session_budget_unknown, _reserve_ambiguous_spend. States: the phases.
--                   Resolve: _resolve_ambiguous_payment_state, _register_payment_identity. Evidence,
--                   Restore: _fold_budget_events and _merge_restored_session_budget. Run: histories
--                   of calls and restores. PhaseSteps, SettledSteps, Sessions: what a
--                   call keeps. Settled, RestoredOnce: what histories keep
--   Execution       Payment402Client._execute_detailed_internal (ln_church_agent/client.py) over the
--                   ledger. Types: settings, replies of servers, objects. Navigate:
--                   _check_local_policy, _claim_navigation_target, _resolve_navigation. Attempt: the
--                   try statement around a payment and _payment_failure. Rounds: the loop of
--                   requests, _execute_nonpurchase_get. Keys, KeyLaws: the idempotency keys. Keeps,
--                   AttemptKeeps, RoundKeeps: what steps keep, an execution keeps. Checks: what
--                   the checks do to hops. Trying, Attempted, Failed: how a payment ends. Spending,
--                   QuietSteps, Paid, Once: the requests and attempts of an execution. Orders:
--                   several executions. Policy: the session cap and the hosts
--   TaskJournal     TaskJournal: Types is the payload, Validate is _validate_payload, Mutate the
--                   transitions, Store the file with create, _update and faults of the write
--   AccessQuota     AccessQuotaPolicy: Account is _reserve_and_sign and _observe, Exchange is
--                   _exchange and finish_failed
--   VisitJournal    ImmediateVisitJournal: Methods has begin_fetch, prepare_report,
--                   correct_unaccepted_report, record_dispatch and record_result
--   Grants          diagnose_grant_token
--   Reader          _BufferedSocket._recv, read_exact (Socket) and read_line (Line)
--                   (ln_church_agent/network_fetch.py), by which the clients read a response
--   Batch           ScheduledHTTPGetBatchExecutor (ln_church_agent/scheduled_http_get_batch.py) over
--                   the task journal. Manifest: _fetch_manifest. Targets: _execute_targets. Execute:
--                   execute and recover_interrupted_manifest_fetch, and histories of executions
--   Trial           PaidServiceTrialJournal (ln_church_agent/paid_service_trial_journal.py) in
--                   Journal, and _reserve_policy and _execute of PaidServiceTrialExecutor
--                   (ln_church_agent/paid_service_trial.py) in Purchase; History has the histories
--   Macaroon        the packets of validate_l402_macaroon_structure
--                   (ln_church_agent/payment_contract.py). Packets: the loop. Sequence: the check of
--                   the order. Format, Shape: the format, stated without a parser. Encode: a printer
--   Framing         _visit_framing (ln_church_agent/network_fetch.py). Fields: the function. Decimal:
--                   the comparison of decimal texts
--   Journals        the journals of two other Task kinds, over a file that is rewritten whole
--                   (Stored): StructuredResponseJournal
--                   (ln_church_agent/structured_response_journal.py) in Structured and
--                   StructuredCalls, EndpointChoiceJournal
--                   (ln_church_agent/endpoint_choice_reason_journal.py) in Endpoint
--
-- How code becomes definitions: a method is a function from the object to a result or an error and
-- the object that it leaves (Common/Outcome), so that what is written before a raise stays written.
-- Histories are lists of calls, of several contexts for the ledger and with faults for the Task
-- journal. Recursion is structural on these lists; the loop of read_exact has the asked size as its
-- fuel, and that of read_line one more than its maximum, since every turn reads at least one byte;
-- the loop over a macaroon's packets has the number of the bytes, since a packet takes seven at
-- least. The loop of an execution has fuel for two turns more than max_hops, since every turn but
-- two claims a hop; that the fuel is used up is a field of the state, which no except clause hides.
-- What a server answers, and whether each step of a payment adapter returns, is arbitrary.
--
-- Amounts of money are natural numbers of a fixed decimal unit; `Decimal(str(float(x)))` is the
-- parameter `float_str`, and not-a-number amounts are left out. Ids, digests, texts and times are
-- numbers, since the code only compares and keeps them. Objects that two tables share stand in a
-- store (AccessQuota). A URL has its host and port as written, which the local policy reads, and the
-- authority of its canonical form, which is sent; a target of a navigation is in canonical form. A
-- method runs as one step, as the locks make it do.
--
-- Not modelled: of an execution, the headers, payloads and digests of URLs, the records of evidence
-- and the asynchronous twin; the parsing of challenges, the payment adapters and signing, the rest
-- of the network code, the Task clients, and the file access below the journals. In an execution
-- the checks of a URL, the parsing, the approval and the adapters are fields of the target or of the
-- 402, with any value. The records of evidence repositories, the signer, digests and the checks of
-- texts are parameters. A context meets one policy: operations that its own table has from elsewhere
-- are left out.
pub mod Common
pub mod AccessQuota
pub mod Batch
pub mod Budget
pub mod Execution
pub mod Framing
pub mod Grants
pub mod Journals
pub mod Macaroon
pub mod Reader
pub mod TaskJournal
pub mod Trial
pub mod VisitJournal
