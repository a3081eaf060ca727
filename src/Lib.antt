-- ===== src/Lib.antt =====
-- The core libraries of a federation of clubs (crates/). A signed identity log records who the
-- members are, which devices they own, who chairs a club and what a member may do on a service.
-- Business chains run on top of it: each has a governance that derives its members and
-- administrators from the log, and a domain with the business logic; one domain is the leagues,
-- another the events of an organization, which holds the leagues, a replicated store of files,
-- plans with their workflows, and a ledger of points. A record of the log is verified and applied
-- by `TrustState::apply`; an action of a chain is applied by `State::apply`, which asks the log
-- for the actor's rights, hands the derived members to the domain, and counts revisions.
--
-- - Protocol: crates/protocol/src/lib.rs and error.rs. `Protocol.Text` has `validate_identifier`,
--   `validate_digest`, `validate_game_profile`; `Protocol.Schema` the records of the log;
--   `Prelude.Results` the errors.
-- - Trust: crates/identity/src/trust.rs. `Trust.State` is `TrustState` with its readers,
--   `Trust.Members`, `Trust.Chairs` and `Trust.Grants` have one function for each arm of
--   `TrustState::transition`, `Trust.Log` has `transition`, `verify_signatures`, `apply` and
--   `new`. `Trust.Step` is the step relation of the fourteen actions that the proofs go by, with
--   `Trust.Step.Sound`, `Trust.Step.Taken` and `Trust.Step.Next`; `Trust.Step.Allowed` says
--   without the code when an action must be accepted, and `Trust.Step.Lists`,
--   `Trust.Step.Meaning`, `Trust.Step.Guarded` and `Trust.Step.Complete` relate the code to it;
--   `Trust.Invariant`, `Trust.Authority`, `Trust.Replay`, `Trust.Genesis` and `Trust.Signatures`
--   have the proofs.
-- - Governance: crates/state/src/governance.rs and domain.rs. `Governance.State` has the data,
--   `Governance.Core` has `identity_core`, `can_read` and `can_write`, `Governance.Consensus` has
--   `validate_consensus_members` and the replacement of the consensus members, `Governance.Apply`
--   has the other actions, `apply` and `new`; the proofs are in `Governance.Admins`,
--   `Governance.Accepted`, `Governance.History` and `Governance.Actors`.
-- - League: crates/league/src/governance.rs and season.rs. `League.State` has the data,
--   `League.Teams` the actions of the registration, `League.Seats` presence, draws and pauses,
--   `League.Scores` start, scores and end, `League.Season` seasons, disputes and rankings,
--   `League.Step` has `LeagueState::transition`; the proofs are in `League.Seated`,
--   `League.Fill`, `League.Fair`, `League.Entering`, `League.Life`, `League.Tally`,
--   `League.Ledger`, `League.Orders`, `League.Once`, `League.Apart`, `League.Roster`,
--   `League.Paths` and `League.Disputes`.
-- - Files: crates/events/src/files.rs. `Files.Store` is `FileStore` with `block`, `tree`,
--   `materialize`, `read`, `validate`, `put` and `advance`, `Files.Version` has `version` and
--   `build_tree`; `Protocol.Ipld` is crates/protocol/src/ipld.rs. The proofs are in
--   `Files.Splice`, `Files.Stable`, `Files.Sizes`, `Files.Total`, `Files.History` and
--   `Protocol.IpldRound`.
-- - Events: crates/events/src/lib.rs, points.rs and workflows.rs. `Events.Organization` and
--   `Events.State` have the data, `Events.Points` and `Events.Attest` the points,
--   `Events.Evidence`, `Events.Plans`, `Events.Final`, `Events.Games` and `Events.Office` have
--   one function for each arm of `workflows::transition`, `Events.Step` has
--   `EventsDomain::transition`, `Events.Queries` what the chain asks before an action; the proofs
--   are in `Events.Caps`, `Events.Attested`, `Events.Ledger`, `Events.Windows`, `Events.Settled`,
--   `Events.Frame`, `Events.Lifecycle`, `Events.Cleared`, `Events.Apart` and `Events.Attendance`.
--
-- How the code is read. A `u64` is a natural number and an `i64` an integer; checked and
-- saturating operations are written out in `Prelude.Words` and `Prelude.Int`. `BTreeMap` and
-- `BTreeSet` are sorted lists, `Prelude.Dict` and `Prelude.Set`. A method that changes its
-- receiver takes the state and returns the next one in a `Result`; the callers work on a copy, so
-- a refusal leaves the state. An index of a map by a missing key panics; in `League` it is the
-- error `panicked`.
--
-- Parameters stand for libraries: `Crypto` for keys, hashes and JSON in the log, `Network` for
-- the parsers of peer ids and addresses, `Domain` for the logic of a chain, `Hashing` for the
-- hashes of a league, `Encoding` for base 32, base 64, SHA-256 and the JSON of nodes, `Libraries`
-- for UTF-8 and the JSON of evidence. No property of the hashes is assumed.
--
-- Fuel. The loop over the vacancies of a team (`fill_team`) has as many rounds as the rules have
-- seats; each round takes a seat or stops. `tree` and `materialize` count down the levels that
-- the code's own limits on depth leave, and give the code's error below them. The levels of
-- `build_tree` have the number of the leaves as their fuel, which is enough, since each level is
-- shorter. `decimal` writes 20 digits, as many as a `u64` has.
--
-- Not modelled: the network node, the client, replication, the durable journal and the gateway to
-- language models, which are input and output through libraries; the conversion of documents; the
-- flows; serialisation.
pub mod Prelude
pub mod Protocol
pub mod Trust
pub mod Governance
pub mod League
pub mod Files
pub mod Events
