-- ===== src/Lib.antt =====
-- ad-agent: an assistant for advertising accounts, whose agent drafts changes and whose host
-- alone applies them, after an operator's approval. This library models the part that decides
-- what reaches an advertising backend, and the reports that the drafts rest on.
--
-- The parts, and the files that model them:
--   Ads/Types, Ads/Operations (Fields, Validate)   internal/ads/types.go and operations.go:
--       entities, the requests to a backend, and Validate of each.
--   Ads/Change, Ads/Change/Policy   internal/ads/changes.go: the state machine CanTransition, the
--       record Change, and Policy.Validate.
--   Ads/Metrics, Ads/Dates, Ads/Report, Ads/Analysis, Ads/Comparison   internal/ads/types.go,
--       analysis.go and comparison.go: the sums of metrics, report queries, Analyze and Compare.
--   Store/Tables, Store/Changes, Store/Leases, Store/Session   internal/store/store.go: the
--       tables as lists of rows; InsertChange, Change, Changes, Transition, Lease and Release as
--       functions of them, with a flag for each statement that the database may refuse.
--   Store/OAuth   internal/store/oauth.go: BeginOAuth and ConsumeOAuth.
--   Service/Platform   what the change service is given: the interfaces of internal/ads, the
--       clock, random ids and the database's faults are one world of which nothing is assumed. A
--       mutating call is recorded with the id of the change that it is made for.
--   Service/Limits, Stage, Perform, Apply, Settle   internal/agenthost/changes.go,
--       operation_policy.go and policy_settings.go: each method of Changes, as a method over the
--       tables, the world and the record of the mutating calls (Service/Exec). Service/Requests
--       runs any sequence of them, each on its own configuration.
--   Sandbox/Rules, Evaluate, Settle   internal/sandbox/rules.go: ruleMetrics, ruleMetricValue,
--       evaluateRules and settleSpend, over the fields of Backend that they read and write.
--   Store/MemoryText, Store/Memories   internal/store/memory.go: SaveMemory, UpsertMemory,
--       Memories and DeleteMemory as functions of the table of memories.
--   Store/Conversation   internal/store/conversation.go: SelectExecution and
--       BindExecutionContract.
--   Runtime/Patterns, Runtime/Models   internal/runtime/model.go and ValidateCodexModel of
--       codex.go.
--   Sandbox/Backend   internal/sandbox/backend.go: List, Get, Restore, Write and Create.
--   Sandbox/Simulation (Restore)   internal/sandbox/simulation.go: Advance and RestoreSimulation.
--   Sandbox/Bundle (Readback)   internal/sandbox/operations.go and operation_readback.go: the
--       campaign bundle of ApplyOperation, and reconcileBundle.
--   Sandbox/Updates (Readback)   internal/sandbox/operations.go and operation_readback.go: the
--       update of an ad group, applied and reconciled, mergeAdGroup, mergeAdCreative and
--       reviewMatches. The keys of the maps that the readback only reads are an argument.
--   Tiktok/Client, Tiktok/Write   internal/tiktokmapi/client.go and writer.go: Client.call with
--       its attempts, and Backend.Write. The requests that reach the network are recorded.
--   Manager/Scope (Requests)   internal/manager/scope.go: NewScope and the requests of a manager,
--       which use the change service of the account they are for.
--   Scenarios   concrete worlds, reports and requests, and the theorems at them.
--
-- How the parts interact: the service stages a change only after Policy.Validate or
-- OperationRequest.Validate; it applies one by a Transition to `applying`, which is a
-- compare-and-swap on the row's state, then at most one mutating call, then a second Transition.
-- The proofs follow that order: Store/Changes/Audit and Claims count the claims in the audit
-- table, Service/Sending the calls, and Service/Safety keeps the one below the other. Rules for
-- each way to build a method (Service/Exec/Ensures, Completes, Triple, and Service/Keep) carry
-- them through the methods.
--
-- Conventions: times are numbers of nanoseconds from 0 on, an int64 counter is its bit pattern
-- and wraps around, an `error` is its text, a nil pointer is `none`. A method that fails keeps
-- what it wrote before. Callers of the service drop the change that a method returns beside an
-- error, and so does the model. Requests run one after the other: the database has one
-- connection, and each of its operations is one transaction. All loops are structural, with the
-- attempts of the TikTok client counted down from 3 or 1 and the hours of Advance from at most
-- 744, but one: the climb from an entity to its parents in ruleMetrics, which Go would go on with
-- for ever on a cycle, runs on fuel, one more than the depth of the entity's level, which is
-- enough where each entity lies deeper than its parent; that the fuel has run out is an answer of
-- its own. A nil dereference, in the check of an operation or on a nil writer, is a failure that
-- nothing catches: the method ends there, as in Go its request does.
--
-- Parameters: shopspring/decimal (Ads/Decimal), of which only Analyze's theorem asks that Cmp is
-- antisymmetric; SHA-256, url.Parse, time.Parse of date-times, net.ParseIP, and the days of a
-- time zone; the delivery model of internal/sandbox (Sandbox/Simulation, Delivery); the network,
-- the vault of tokens and the JSON decoder of the TikTok client (Tiktok/Client, Network); the
-- JSON texts of amounts and ad groups (Sandbox/Bundle/Readback); unicode.ToLower and the format
-- of a time in memories.
--
-- Not modelled: the language models' hosts and their tools, the sandbox's delivery model and
-- reports, its operations but the campaign bundle and the update of an ad group, the reports of a
-- manager's scope, TikTok's readers and operations, HTTP, the command line and the web interface;
-- of the store, the events, settings, sandbox snapshots and the pages of a conversation;
-- timeouts.
pub mod Prelude
pub mod Runtime
pub mod Ads
pub mod Store
pub mod Service
pub mod Sandbox
pub mod Tiktok
pub mod Manager
pub mod Scenarios
