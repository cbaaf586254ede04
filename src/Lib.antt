-- ===== src/Lib.antt =====
-- The ACP server: covenants between a space owner and agents, whose contributions are logged,
-- rewarded in tokens and settled. Every operation is modelled as a function on the database.
--
-- The parts and their files:
--   Base        shared names, tests on numbers, lists, the integers, and the SQL forms (Base/Sql) with
--               their laws (Base/Queries)
--   Store       the tables of internal/db/schema.sql as one record, the values in their columns, the
--               calls that may fail (Store/Calls) and what comes from outside (Store/Outside)
--   Audit       internal/audit/audit.go: LogEvent is log_event, VerifyChain is verify_chain
--   Budget      internal/budget/budget.go: CheckAndReserve is check_and_reserve, RecordSpend is record_spend
--   Tokens      internal/tokens: the ledger (tokens.go), the snapshots (snapshot.go) in Tokens/Snapshots,
--               whose query is a join, groups and sums as in the SQL,
--               and the formulas (rules.go) in Tokens/Rules and Tokens/Parse
--   RateLimit   internal/ratelimit: CheckAndIncrement is check_and_increment, the report of
--               concentration.go is in RateLimit/Concentration
--   Sessions    internal/sessions/sessions.go
--   Covenant    internal/covenant: the states and tiers, the members in Covenant/Members, the access
--               requests of access_request.go in Covenant/Access
--   Execution   internal/execution: a tool, the eight steps of Run in Execution/Engine, and the policy
--               of the parameters (policy.go) in Execution/Policy
--   Tools       tools: helpers.go, propose_passage.go, leave_covenant.go, approve_draft.go,
--               reject_draft.go; Tools/Settling (generate_settlement.go, confirm_settlement_output.go),
--               Tools/Agents (approve_agent.go, reject_agent.go), Tools/AccessRequests
--               (approve_agent_access.go, reject_agent_access.go), Tools/Configuring
--               (configure_token_rules.go, configure_anti_gaming.go), Tools/RecordGitTwinEvent
--   Settlement  internal/settlement/settlement.go
--   Keys        internal/keys: names of key files in Keys/Names, their checks in Keys/Files, the
--               keyring with its start, migration and Rotate in Keys/Ring
--   Sealing     internal/crypto/seal.go: Seal is seal, Open is unseal
--   Reencrypt   internal/reencrypt/reencrypt.go: runOne is run_one, RunTargets is run_targets
--   GitTwin     internal/gittwin: unit_mapper.go in GitTwin/Units, platform_id.go in
--               GitTwin/PlatformId, webhook.go in GitTwin/Webhook, anchors.go and signing.go in
--               GitTwin/Anchors
--   Api         internal/api: api.go with its handlers in Api/Covenants, Api/Accounts and Api/Queries,
--               git_twin.go in Api/GitTwin; the names of the handlers are kept
--   Tests       a concrete host, a small database and a witness for each theorem with conditions
--
-- How they interact: the engine finds covenant and member in Covenant, asks RateLimit and Budget, runs
-- the methods of a tool, writes to Audit before it applies the tool's effects, and settles with Budget.
-- The handlers of Api check the tokens and call these parts; a merge of the git twin is two runs of the
-- engine. Sealing takes its keys from the keyring, and Reencrypt seals again what an older key sealed.
-- A transition to LOCKED takes the snapshots of Tokens; Settlement reads the totals of Tokens.
--
-- The state is the record Db, one list of rows for each table with the newest row first. An operation
-- takes it and gives it back beside its result, also beside an error, since what was written before an
-- error stays; a transaction takes its writes back. Keys and UNIQUE columns are checked by the
-- insertions of the modelled operations, those of reservations and snapshots included. Texts that are
-- only compared are numbers, and so are times: where a query orders by a time, it is ordered as a
-- number, which differs from the order of RFC3339Nano texts for fractions with trailing zeros. Amounts
-- are integers. What Go computes of them itself wraps around at 64 bits (balance_after, the totals of
-- a settlement and of the concentration report, the limit less the spending in the budget gate); the
-- sums that SQLite computes are exact, and its error for one beyond 64 bits is not modelled. No
-- definition needs fuel: each follows a list or a formula.
--
-- Parameters: float64 arithmetic, SHA-256 and its payload's rendering, encoding/json, go/parser and the
-- sealer are the record Host; time and random identifiers are the record Draw of a call, and that an
-- identifier is fresh is a hypothesis where a theorem needs it. The calls of the system on key files
-- are the record Os, AES-GCM is Cipher, the JSON, base64 and ed25519 of the anchors are NoteCodec, the
-- JSON, hex and HMAC of the webhooks are Codec; what a theorem relies on of them is named by it.
--
-- Not modelled: failures of the database itself, the opening and the migration of its file, the table of
-- the routes and the JSON of the replies, the commands (cmd), internal/doctor, internal/gittwin/writer.go,
-- internal/covenant/backfill.go, and the tools that only read (tools/query_tools.go), since they are
-- input and output, or repeat what the services that they call are modelled to do.
pub mod Base
pub mod Store
pub mod Audit
pub mod Budget
pub mod Tokens
pub mod RateLimit
pub mod Sessions
pub mod Covenant
pub mod Execution
pub mod Tools
pub mod Settlement
pub mod Keys
pub mod Sealing
pub mod Reencrypt
pub mod GitTwin
pub mod Api
pub mod Tests
