-- ===== src/Lib.antt =====
-- A model of the core of the OxDeAI authorization protocol, packages/core/src: a policy engine that
-- decides on intents of agents in a state, issues authorizations, and keeps a hash-chained audit
-- log; and the verifiers that other parties run on authorizations, events, snapshots and envelopes;
-- and of the guard and the client of packages/sdk/src, through which an agent uses the engine.
--
-- An intent (types/intent.ts: Intent) and a state (types/state.ts: State) go into `evaluatePure` of
-- policy/PolicyEngine.ts (Engine/Evaluate). It checks its input (Engine/Validate), has a roster of
-- policy modules evaluate the intent on the state (policy/modules/*.ts: Modules/*), and merges the
-- changes that they propose one by one (Engine/Apply, Merge). If no module denies, it hashes the
-- resulting state by the modules' codecs (policy/modules/_codec.ts: Codec, Engine/Snapshot), issues a
-- signed authorization and enters it in the state. Events go to the log (audit/HashChainedLog.ts:
-- Log) and to a sink (Engine/Emit). `evaluate`, `simulateSequence`, `commitState` and
-- replay/ReplayEngine.ts are in Engine/Run, the engine's `verifyAuthorization` in Engine/Verify, and
-- `importState`, which reads a snapshot back by the codecs, in Engine/Import and Codec/Restoring.
-- Hashes and signatures (crypto/*.ts: Crypto, Keyset) are taken of canonical JSON (crypto/hashes.ts,
-- utils/stableStringify.ts: Json). Other parties run verification/verifyAuthorization.ts
-- (Verification/Authorizations), verification/verifyAuditEvents.ts (Verification/Events) and
-- replay/verify.ts (Verification/Replays). A snapshot of a state is encoded by
-- snapshot/CanonicalCodec.ts (CanonicalCodec) and checked by verification/verifySnapshot.ts
-- (Verification/Snapshots); with the log's events it makes an envelope, verification/envelope.ts
-- (Envelope), which verification/verifyEnvelope.ts checks (Verification/Envelopes). Unknown JSON goes
-- through schemas/validate.ts (Schemas). Tests has a concrete engine and the theorems at it.
--
-- The guard (packages/sdk/src/guard.ts: Sdk/Guard) loads the state from an adapter, evaluates, records
-- the events, has the engine check its authorization, runs the action and saves the next state; the
-- client (client.ts: Sdk/Client) commits without an action and verifies what its engine
-- would show (Sdk/Client/Artifacts), and builders.ts (Sdk/Builders) makes
-- intents and states. Adapters and actions are calls that change a world and are fulfilled or
-- rejected (Sdk/Adapters); the laws of a store that the theorems rely on are in Sdk/Guard/Stores, and
-- the store in memory has them.
--
-- State is passed explicitly: a call gives its output, the engine after it and the content of the
-- caller's state object. That object matters: `deepMerge` copies its outer object alone, so a merge
-- writes into nested objects that the caller holds. `deep_merge` is the value of the merged state,
-- and `aliased` the content of an older object once a merge has written into what it shares.
-- Exceptions are `none`, or the result that the `catch` returns. `number` values are natural
-- numbers (times, counts and limits), `bigint` values are integers, and objects with ids for keys
-- are association lists. The sink and the state store are asynchronous: the model keeps what is
-- handed to them, in order.
--
-- node:crypto and Buffer are the parameter `Host` (Crypto), JSON.parse and base64 the parameters of
-- the codecs (CanonicalCodec, Envelope). All theorems hold for any of them; where one needs that
-- digests have one length, or that parsing gives back a value, it says so.
--
-- Loops are structural recursions. Decimal printing (Prelude/Decimal) runs on fuel that is one more
-- than the number, and every step divides it by ten.
--
-- Not modelled: `flushAudit` and `flushState`, which wait for queues; checks on the shape of typed
-- values that the types here rule out; messages of violations;
-- keys that name members of Object.prototype or read as array indices; calls of one guard that
-- overlap; the file adapters, the command line, the
-- conformance vectors, benchmarks and examples. Strings are compared by code points where JavaScript
-- compares UTF-16 units.
pub mod Prelude
pub mod Dict
pub mod Intent
pub mod State
pub mod Policy
pub mod Modules
pub mod Merge
pub mod Json
pub mod Schemas
pub mod CanonicalCodec
pub mod Envelope
pub mod Crypto
pub mod Keyset
pub mod Authorization
pub mod Audit
pub mod Log
pub mod Codec
pub mod Engine
pub mod Verification
pub mod Sdk
pub mod Tests
