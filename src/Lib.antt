-- ===== src/Lib.antt =====
-- The Shinzo scheduler service: a model of its Go code, with theorems about it.
--
-- The service coordinates indexers, which serve blockchain data, and hosts, which pay for it. It
-- keeps its records in DefraDB collections behind stores (pkg/store). Hosts subscribe to indexers
-- (pkg/subscription). In a delivery session the indexer claims blocks and the host attests them
-- (pkg/accounting); an escrow is drained by the verified blocks, and sessions are settled in batches
-- by messages to ShinzoHub (pkg/settlement). The managers share no memory: they meet in the
-- collections. A manager's state here is the record of the collections that it uses, together with
-- the hub's state where it sends messages.
--
-- The files:
--   Base        numbers, texts, lists, results and calls on a state, shared by all
--   Store       pkg/store: the records, the collection that each store wraps (Store/Db), one module
--               for each store with its queries and writes, and below it, under Answers, what they
--               do to the documents
--   Accounting  pkg/accounting/manager.go and types.go: Manager (submissions), Cids (compareDocCids),
--               Compare (Compare, updateLedger), Rounds (runComparisons, escalateExpiredUnderReports),
--               Honesty (honesty.go), Escalator (escalation.go)
--   Settlement  pkg/settlement: Hub (hub.go, types.go), Escrow (escrow.go), Batch (batch.go,
--               close.go), Verdict (verdict.go), Contradiction (contradiction.go), Tendermint
--               (broadcaster.go)
--   Subscription pkg/subscription/manager.go and types.go: Manager, with the validation, the life of
--               a subscription as a relation, and any sequences of calls (Runs), and why one
--               is active (Activations)
--   Registry    pkg/registry: Indexers (indexer_registry.go), Hosts (host_registry.go)
--   Auth        pkg/auth/verifier.go: the tokens of requests and their making
--   Discovery   pkg/discovery: Pricing (pricing.go, diversity.go, scorer.go), Query with Tip
--               (FindForTip) and Snapshot (FindForSnapshot) (query.go)
--   Probe       pkg/probe/prober.go: Prober, with any sequences of the calls that write indexers
--               (Runs)
--   Payment     pkg/payment: Client (client.go), Hub (shinzohub.go), with the connection
--               (Connection) and its reader (Reader)
--   Config      config/config.go
--   Api         pkg/api: a module for each file of handlers, RateLimit and Auth (middleware), Server
--               (server.go)
--   Scheduler   cmd/scheduler/main.go: the bootstrap, the handlers of the hub's events, and
--               the parts around the subscription manager at work together (Service)
--   Loop        in each component with a goroutine that makes rounds: its start
--   Tests       collections, numbers and records on which the theorems are run
--
-- How Go is modelled. A method is a function of the state that returns a result and the next state,
-- also after an error (Base/Actions). A record of a method's receiver holds its stores and its
-- configuration; loggers, contexts, mutexes and wait groups are left out. `int` is an integer between
-- -2^63 and 2^63 - 1, and wraps where it is computed with (Base/Int). `float64` is an interface of
-- operations and facts of IEEE 754 (Base/Float), with no more exact arithmetic than that of small
-- whole numbers. The time is an argument `now`, read once by a call, and the ids of `uuid.New` are
-- arguments. Times are counts of nanoseconds; their texts and those of JSON lists are functions of a
-- runtime (Base/Time). A map that Go iterates in an unspecified order comes with the order as an argument.
--
-- DefraDB is a parameter: a collection with four requests, of which Store/Db states what is
-- documented (`LawfulDb`, `FreshIds`); every request may fail. Loops over records run over lists.
-- The loops of goroutines, over ticks (Base/Tickers) or the messages of the hub, take a fuel that
-- bounds their passes (Base/Loops); what they find in each pass is an argument, and a fuel above the
-- number of passes before the end is enough. The digits of a number (Base/Decimal) take a fuel of 20
-- steps, which are enough below 10^20.
--
-- A handler of the API is a function of the token, the path, the query and the body of a request,
-- as far as that can be decoded, and of the state, which returns the reply and the next state.
--
-- Not modelled: the text of the GraphQL requests and the JSON on the wire, the transport of HTTP with
-- its router and that of the web socket, the logging and the limit of a body's size (pkg/api), the
-- interleaving of goroutines below the level of a call (a request, an event and a round run to their
-- end before the next one, and the probes of a round are made one after another), the recovery from
-- panics, and the start and end of the process (cmd/scheduler).
pub mod Base
pub mod Store
pub mod Accounting
pub mod Settlement
pub mod Subscription
pub mod Registry
pub mod Auth
pub mod Discovery
pub mod Probe
pub mod Payment
pub mod Config
pub mod Api
pub mod Scheduler
pub mod Tests
