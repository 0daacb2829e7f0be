-- ===== src/Lib.antt =====
-- yunohost-mcp: an MCP server that lets remote agents administer a YunoHost server. Every request
-- is signed (NIP-98), its key is mapped to an identity with scopes, dangerous tools need a confirmation
-- ticket that a policy may send to the owner for a signature, and a root-side broker repeats the
-- checks and calls the host. Modelled is the core that decides who may do what and what is recorded of
-- it: src/yunohost_mcp/auth, policy, broker and audit, and redaction.py.
--
-- Prelude      Python's dict, sets of texts, integers and results, shared by all parts.
-- Platform     what the program calls and does not implement: hashing, JSON, base64, pydantic's reading
--              of fields, the string methods, bech32, dates and Schnorr signatures. All are fields of
--              one record that the definitions take; nothing is assumed of them but where a theorem
--              says so.
-- Auth.Nostr   src/yunohost_mcp/auth/nostr.py: NostrEvent, compute_event_id, verify_event.
-- Auth.Replay  auth/replay.py: ReplayCache; the dictionary and its pruning at each call.
-- Auth.Nip98   auth/nip98.py: verify_nip98_request, in the order of its checks.
-- Auth.Identity    auth/identity.py: identity.toml (`Entry`, `IdentityFile`) to records, and IdentityStore,
--              which holds records or reads the file at each call.
-- Auth.Revocation, Auth.Delegation, Auth.Owner   auth/revocation.py, delegation.py, owner.py.
-- Auth.Groups  auth/groups.py: GroupIdentityStore, over the group database.
-- Auth.Middleware  auth/middleware.py: _resolve_identity, which puts these together.
-- Policy.Scopes, Policy.Roles   policy/scopes.py and roles.py.
-- Policy.Rules     policy/rules.py: DEFAULT_POLICY, the policy keys that depend on arguments, load_policy
--              with sizes and durations (Rules.Sizes), check_free_space, check_recent_backup.
-- Policy.Confirmation  policy/confirmation.py: the tickets (Ticket), ConfirmationStore, and
--              SQLiteConfirmationStore (Sqlite); Trace has sequences of calls.
-- Policy.Locks, Policy.Enforcement  policy/locks.py and enforcement.py: WriteLock, and the wrappers
--              require_scope, require_confirmation and translate_known_errors of a tool.
-- Policy.PackageSessions  policy/package_sessions.py: PackageTestSessionStore.
-- Redaction    redaction.py: redact and redact_response.
-- Audit.Lines, Audit.Log  audit/log.py: AuditLog over the bytes of its file, with the lines of a text.
-- Audit.Decorator  audit/decorator.py: audited_write, and a write tool of server.py with all wrappers.
-- Broker.Protocol  broker/protocol.py: BrokerRequest, its object, and decoding.
-- Broker.Operations  broker/operations.py: OPERATIONS by scope, and the tables of broker/helper.py.
-- Broker.Calls     broker/operations.py: the checks, the adapter call and the key of the result of each operation (one module
--              for each kind of operation), and OPERATIONS by its handlers (Registry).
-- Broker.Helper, Broker.Handle  broker/helper.py: authorize_request, _check_operation_policy, and handle,
--              over an adapter that reads and changes the host's state W.
-- Concord.PendingSignature  concord_pending_signature.py: PendingSignatureStore, each statement a step.
-- Concord.Guestbook  concord_guestbook.py: fold_guestbook, over decoded rumors.
-- Tests        runs on concrete inputs.
--
-- State is passed explicitly: a store's method takes the store and returns the result or error beside
-- the store that it leaves. Exceptions are values of an error type per module. Clock readings and
-- fresh ids are arguments. Times are natural numbers of one unit in the confirmation stores and the
-- replay cache, and integer seconds in the rest. Concurrent calls of a store are a sequence of calls:
-- each method of the in-memory store runs without waiting, each of the confirmation table that
-- writes is one transaction, and the reads of its peek are taken with no other call between them. All
-- recursion is on lists and texts, so no bound or fuel is chosen.
--
-- Not modelled: the broker's audit entries and its socket, redact_text, and the concord modules but
-- for the drafts and the guestbook (cryptography and relay I/O); server.py and yunohost/adapter.py
-- (tools over third-party calls; the adapter is a parameter of the broker), the command-line clients
-- and notifications (I/O).
pub mod Prelude
pub mod Platform
pub mod Auth
pub mod Policy
pub mod Redaction
pub mod Audit
pub mod Broker
pub mod Concord
pub mod Tests
