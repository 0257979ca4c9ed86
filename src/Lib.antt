-- ===== src/Lib.antt =====
-- anymone: private messaging rounds over relays that a committee schedules. This library models the
-- parts of crates/anymone-core/src that decide what is signed, adopted, accepted and blamed.
--
-- The parts and where they are modelled:
-- Wire.antt: the frames of wire.rs, `Frame::decode` and `Frame::encode`.
-- Config.antt: the configuration of config.rs; Config/Attestation.antt its attestation policy with
--   the equality; Config/Multisig.antt the signing bytes and `verify_multisig`.
-- Faults.antt: `OutputFaultTracker` of faults.rs, the liveness faults of a subnet.
-- Contribution.antt: the manifests of contribution.rs and their bytes; Contribution/Verifier.antt the
--   replay store, `ContributionVerifier` and `freeze_manifest`.
-- ClientPool.antt: the queue and the clients of a channel in client_pool.rs; Events.antt makes runs of its
--   tasks and callers. `grow` is two steps, the count of the members and `claim` of the flag, since its
--   own task runs between them; `release` is the end of that task.
-- ClientSet.antt: the formation of a round's client set in client_set.rs, with the crates that it calls
--   as the fields of `Crates`. ClientSet/Wire.antt reads and writes bundles, Packing.antt receipts, fragments and relays, Server.antt takes bundles,
--   bulletins, batches and fragments, Relaying.antt has `originate` and `absorb`, Finalize.antt
--   `finalize` with `rebuild`, Plurality.antt `plurality_set`; Steps.antt makes runs of them,
--   and Agreement.antt puts several honest lanes and an adversary together over the relay rounds.
--   Client.antt builds a client's bundles and fragments, with the crates it calls as `ClientCrates`.
-- Scheduler.antt: the governance scheduler of scheduler_core.rs. Its state and parameters are in
--   Scheduler/State.antt, the public observers in Observer.antt, `on_registration` with the messages
--   of scheduling.rs in Registration.antt, `apply_observed_faults` and `on_fault_report` in
--   FaultReports.antt, the structural test in Structure.antt with the size estimators in
--   WireSize.antt, a member's own test in Validation.antt, the handlers of proposals, signatures and published configurations in
--   Proposals.antt, the sizes of the network in Sizing.antt, `build_body` in Build.antt and `tick` in
--   Tick.antt.
-- RemoteSession.antt: a client session that a remote caller drives, of remote_session.rs. The tests before a client
--   is called are in RemoteSession/Guards.antt, the calls in Perform.antt, requests, actions and the end in
--   Requests.antt, `validate_config` in Validity.antt, opening and reconfiguration in Opening.antt;
--   Events.antt makes runs of them. Panetiere.antt has the messages of panetiere.rs.
-- ScheduledClient.antt: the messages of a scheduled client of panetiere_scheduled.rs, from the caller to a slot of a
--   round's message vector; ScheduledClient/Submission.antt has `finalize_round`, Events.antt makes runs,
--   Vectors.antt tells the bytes of a vector.
-- AuctionClient.antt: the scheduled client of adcnet.rs, which puts a message up for auction in one round and sends
--   it in the next; AuctionClient/Events.antt makes runs, and AuctionClient/Remote.antt makes it the client of a
--   remote session.
-- Discovery.antt: the genesis and `check_config` of discovery.rs, and the loop by which the RPC client of
--   crates/anymone-rpc-client/src/discovery.rs adopts a configuration.
-- Views.antt: `net_view` of governance.rs, the senders of each topic and the peers of a node.
-- Examples.antt: concrete inputs for the theorems.
--
-- How they interact: the scheduler takes registrations and fault reports, validates the body that the
-- lead proposes against them, signs it, collects signatures and publishes the configuration when the
-- multisig test of Config passes. A client takes up the published configuration through Discovery, a
-- node turns it into its network view by Views, and the lanes of a round agree on the clients by ClientSet. Proposals/Events.antt composes these handlers into sequences.
--
-- A handler that mutates `self` is a function from the state to the next state, with its actions or its
-- result beside it. A key, a hash, a tag or a seed is the number that its big-endian bytes spell, a
-- text is its bytes, an f32 is its bit pattern, a duration counts nanoseconds. A map is an association
-- list; the order in which a HashMap is iterated is not modelled. A BTreeMap is kept in the order of its
-- keys in ClientSet, where results depend on it (Base/Ordered.antt), and elsewhere is not. Unsigned integers are natural numbers; where the source
-- saturates or wraps, the clause says so.
--
-- What the third-party crates do is a parameter: Ed25519, SHA-256 and bincode are the fields of
-- `Crypto`, `Env`, `Signing` and `Primitives`, the sizes of the cryptographic objects those of
-- `WireSizes`, the readers of exchange keys those of `KeyOps`, and the protocol observers of adcnet.rs and panetiere.rs those of `AdcnetOps` and
-- `PanetiereOps`.
--
-- Fuel: `half_sqrt` counts down from the capacity, which is above any candidate, and the evaluation of
-- Faults walks the rounds up to the frontier, at most 4096 of them as in the source.
--
-- The clients of the four protocols, which a remote session calls, are the interface `Clients`.
--
-- Not modelled: the encryption and the receipts of a client's round, the servers' sessions, the runtime, the transports, the
-- attestation of vendors and the crates around the core, most of which is input and output.
pub mod Base
pub mod AuctionClient
pub mod Wire
pub mod Config
pub mod Faults
pub mod Contribution
pub mod ClientPool
pub mod ClientSet
pub mod Discovery
pub mod Panetiere
pub mod RemoteSession
pub mod ScheduledClient
pub mod Scheduler
pub mod Views
pub mod Examples
