-- ===== src/Lib.antt =====
-- The ownership engine of YouFen, a platform where a community issues ownership tokens to its
-- members for their contributions, and governs itself with them.
--
-- The program's core is lib/engine: services over one database, each call a transaction. A mint
-- (mint-service.ts) turns an approved contribution into tokens within the budget of the active
-- epoch, and takes what the budget lacks as an advance on the next epoch, if a request for it has
-- been approved (advance-service.ts). The close of an epoch (epoch-service.ts) derives the budget of
-- the next one from the supply, carries unpaid advances over as debt, makes pending tokens count for
-- votes, and activates a pending policy version (policy-service.ts). A proposal (proposal-service.ts) freezes the weights
-- of the members when it is activated, counts votes by them, and may settle a policy change or an
-- advance. A reversal (reversal-service.ts)
-- takes a mint back as an event of its own. Each change leaves a public record (lib/blockchain/records),
-- which is later mirrored on a chain and moves through a state machine of its own. The relay moves
-- the actions that are sent to the chain, and the indexer folds the chain's events into tables that
-- mirror it.
--
-- Files:
--   Base, Base/*           names of the libraries, Boolean tests, lists as tables, integers
--   Engine/Errors          lib/engine/errors.ts: the codes; what is thrown is a value of Result
--   Engine/Calc, Calc/*    lib/engine/calc.ts: token arithmetic, the approval table
--   Engine/Tables          the rows of lib/engine/types.ts and of the services' own interfaces
--   Engine/Db              the database as lists of rows, and Tx, a transaction
--   Engine/Db/Locks, Sql   lib/engine/db-locks.ts, ledger-seq.ts, sql.ts
--   Engine/Db/Keeps        rules for what a run that commits preserves
--   Engine/Ports           what the engine is given: envelope and hash functions, the clock; the
--                          insertion of public records (createPendingRecord, createDbOnlyRecord)
--   Engine/Balances        balance rows and the supply
--   Engine/Books, Books/*  the totals of a community and what each shared statement does to them
--   Engine/Mint, Mint/*    mintForContribution (Gates, Legs, Contribution), mintInitialAllocation
--                          (Genesis), and what they preserve (Conservation, Seed, Once)
--   Engine/Advance/*       createRequest, secondApprove, attachProposal, reject (Requests), execute
--                          (Execute; Once: executing again)
--   Engine/Reversal/*      reverseMint (Guards, Reverse), finalizeSupersede (Supersede)
--   Engine/Policy          createPendingVersion, activatePendingVersion; Listing: getCurrentPolicy,
--                          listVersions
--   Engine/Proposal/*      create, activate, castVote (Vote), end, the tally (Tally), and what they
--                          promise: the winner (Tally/Plurality), the votes (Casts, Ballots), the result
--                          (End/Results, End/Again, End/Quiet)
--   Engine/Epoch/*         closeEpoch (Close), createNextEpoch (Next)
--   Engine/System          sequences of committed calls of all services
--   Engine/Ledger          what a community's ledger promises; System/Refinement shows that the services
--                          keep to it
--   Api/Idempotency        lib/api/core/idempotency.ts: a store as an interface, its adapter, the replay
--   Api/RateLimit          lib/api/public-records/rate-limit.ts: a sliding window with bounded memory
--   Chain/Approval         lib/blockchain/signatures/threshold.ts, and the engine's own table
--   Chain/Merkle           lib/blockchain/hashing/merkle.ts, over a given hash of two nodes
--   Chain/Actions          lib/blockchain/relay/action-state-machine.ts; Service: chain-action-service.ts
--   Chain/Projection       lib/blockchain/indexer/projection.ts: the fold of an event, its replay, and
--                          the order of events
--   Chain/Records          lib/blockchain/records: state-machine.ts and the conditional updates of
--                          record-service.ts
--   Jobs                   the workers of lib/blockchain/queue: Submit (submit-worker.ts), Build
--                          (makeBuildSubmittable of lib/blockchain/index.ts), Wallet (the nonce of
--                          injective/wallet.ts), Confirm (confirm-worker.ts), Queue (enqueue.ts),
--                          Reconcile (records/reconciler.ts)
--   Jobs/Backed/*          what a verified status rests on, for all workers together (System)
--   Jobs/Live/*            how a pending record comes along
--   Jobs/Submit/*          what a submission leaves of the record (Free) and of the nonce (Nonce)
--
-- State and errors: a transaction takes the tables to a result and the tables after it, and a throw
-- hands back no tables, which is the rollback of `$transaction`. Rows are locked until a transaction
-- ends, so that transactions are taken one after another; interleavings are sequences of whole calls.
-- A unique column is looked up by its first match. Unique keys are checked where the code handles
-- their violation. What the services are given is a parameter: buildEnvelope, the hashes and the clock
-- are fields of Ports, of which nothing is assumed.
--
-- Bounds: ids, texts and dates are natural numbers, and null is none. Amounts are bigints in the
-- code; they come in signed and are natural numbers once the code has checked them. The ledger
-- sequence and the percentages are small numbers in the code and are unbounded here. Loops recur on
-- the list that they walk; those of the Merkle tree run on fuel, the number of leaves, which is enough
-- since every round shortens a level (Chain/Merkle/Inclusion).
--
-- Workers: a job runs statement by statement over the tables, the wallet's counter and a state of what
-- lies outside; its calls (the node, the contract, the queues) are parameters, which answer or throw,
-- and before each statement and during each call other workers may change the tables. What a job has
-- written stays written when it throws. The database itself is taken to answer. An error stands as
-- classifyUnknownError sorts it.
--
-- Not modelled: the clients of the chain (the polling for a receipt, the look-up by segments, the
-- verifier), the loading of a record's source, canonical payloads, the API handlers beyond their
-- idempotency keys and the rate limit of public records, the pages, the contracts in Solidity.

pub mod Base
pub mod Engine
pub mod Jobs
pub mod Api
pub mod Chain
