-- ===== src/Lib.antt =====
-- VIVIM omega is a host for plugins in compartments. A plugin holds capability tokens and calls
-- operations; the host's router checks the token, resolves the operation over a graph of signed
-- grants, asks the law plugin about risky operations, and delivers the call to a compartment with a
-- bounded number of calls in flight. This library models that path, the
-- executor of vivim.run, and the vault, the append-only store of vivim.vault.
--
-- Common: conditionals, lists, JavaScript's Map and Set over strings (both in insertion order), texts.
--
-- Host, the micro-host (host/src, contracts/src):
--   Host/Port: PortResult, its errors, HOST_OPS and HOST_OP_TO_CAP (contracts/src/port.ts,
--     lifecycle.ts). The error details are texts for people and left out.
--   Host/Tokens: the token table of PortRouter in host/src/ports.ts (mintTokensFor, installTokens,
--     checkToken, the host op tokensRevoke). The random tokens are a parameter `fresh`.
--   Host/Lanes: deliver, enqueue, admit, release, the return message, the deadline timer and
--     failInflight of the same file. A promise is a ticket; `settled` and `posted` record what is
--     resolved and what is sent to a worker. Payloads, stream chunks and boot waiters are left out.
--   Host/Arbiter: host/src/state.ts. Host/Tools: host/src/contract.ts.
--   Host/Audit: host/src/audit.ts; digest, signature and verification are parameters.
--   Host/Graph: host/src/graph.ts. The loop of blastRadius runs on fuel: the neighbours of the node and
--     the sizes of the sets of all nodes, since an id that was seen puts nothing more on the queue.
--   Host/Kernel: host/src/genesis.ts, and registerGraph of ports.ts. A thrown error is `none`.
--   Host/Dispatch: callerRange, resolveTarget, dispatch, callLaw, compartmentCall of ports.ts. It
--     takes the router's state before and after the law has answered, the law's answer, and what the
--     lazy spawn did.
--   Host/Register: register and registerDormant, with riskyOps of contracts/src/manifest.ts.
--   Host/Ops: hostOp of ports.ts, with the copies it hands out.
--
-- Law, the plugin vivim.law (plugins/vivim-law/src, contracts/src/consent.ts):
--   Law/Policy: policy.ts. Law/ConsentId: consent.ts of contracts/src, on UTF-16 units, with 32-bit
--     arithmetic written out. Law/Consent: consent.ts. Law/Forbidden: forbidden.ts.
--   Law/Baseline: LAW_POLICY_V1 and shadow specs. Law/Scope: tokens.ts.
--   Law/Principal: principal.ts, but for reading rows back.
--   Law/Check: `resolve` and law.check@1 of index.ts, with the shadow policy of amendment.ts. The
--     journal is best effort there and never changes a decision.
--
-- Run, the plugin vivim.run (plugins/vivim-run/src):
--   Run/Queue: queue.ts. Run/Pool: pool.ts. The loop `pump` runs on fuel, the number of queued tasks:
--     that is enough, since each round takes one task off the queue. Run/Health: health.ts, but for
--     its timer.
--
-- Vault, the plugin vivim.vault (plugins/vivim-vault/src). A SQL table is the list of its rows, the
-- files of the CAS a map from cid to text, SHA-256 a parameter `hash`:
--   Vault/Canon: canon.ts, on JavaScript values; a number is its JSON text. Vault/Json: what JSON.parse
--     makes of the text of JSON.stringify, which is how the meta of a version is kept. Vault/Store: the
--     tables and reads of sql.ts, and the lookups of cas.ts. Vault/Append: changelog.ts and casPut.
--   Vault/Compact: compaction.ts, with liveRefs and ftsDeleteMany. Vault/Verify: verify.ts.
--   Vault/Copy: roundtrip.ts behind its path checks. Vault/Query: queryObjects, with LIKE as SQLite has
--     it. Vault/Ops: validate.ts and the handlers of index.ts.
--   Vault/Spec: the abstract vault, a list of versions under each namespace and id, and runs of the
--     write queue. Vault/Refined, Vault/Grown: how the tables stand for it.
-- A transaction that throws leaves the tables as they were. The fuel of `decimal` is the number and
-- one, and a number has fewer digits than that.
--
-- Times are milliseconds in ℕ, and the clock does not run backwards. Everything asynchronous is a
-- sequence of events; what is read from a worker, the clock, the random source and node:crypto is an
-- argument. Not modelled: the boot sequence, recipes and signatures on disk, worker threads, the
-- vault's full-text search and its files, the providers, the surfaces and the tools of the build,
-- which are I/O or large systems of their own.
pub mod Common
pub mod Host
pub mod Law
pub mod Run
pub mod Vault
