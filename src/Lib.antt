-- ===== src/Lib.antt =====
-- Verification of bank-core: a bank of Go services around a double-entry ledger.
--
-- The program. The ledger service (services/ledger) owns the money: accounts, balances, holds, an
-- append-only journal of postings, and an outbox of events. Every write is one database transaction.
-- The transfer service (services/transfer) drives each transfer through a saga: it places a hold at
-- the ledger, posts an entry that captures the hold, or releases the hold. Both report errors with the
-- codes of pkg/apperr, which travel as gRPC statuses, and compute with the int64 amounts and rates of
-- pkg/money. The account service owns the customers' accounts and mirrors each in the ledger; it projects
-- balances from the ledger's events. The identity service keeps users and refresh sessions. Events travel
-- from a service's outbox through its relay (pkg/outbox) to the consumers of the others (pkg/kafka). The
-- antifraud service scores completed transfers, and the gateway's table says who may call which route; of
-- the rest of the gateway and of notification nothing is modelled.
--
-- The files.
--   Prelude/   shared names; integers over the native numbers with the ruleset `int_laws` (Int), Go's
--              int64 with its wrap-around (Int64), maps (Dict), sorted keys (Sort), results (Results).
--   Apperr/    pkg/apperr: Codes is apperr.go, Grpc is grpc.go, Http is http.go.
--   Money/     pkg/money: Defs is money.go, Fx is fx.go with big.Int as integers; Arith, Rounding are proofs.
--   Ledger/Domain/   services/ledger/internal/domain/domain.go: Defs has the types, Rules the functions;
--              Entry and Holds are proofs.
--   Ledger/Store/    the tables as a record `Db` (Tables), and each statement of
--              services/ledger/internal/adapters/postgres/store.go with its SQL and the constraints of
--              the migration (Statements). `Tx` is a step of a transaction; `within_tx` commits or
--              rolls back.
--   Ledger/Service/  services/ledger/internal/app: Errors is errors.go, Holds is CreateAccount,
--              PlaceHold, ReleaseHold and the sweep of sweeper.go, Post is PostTransaction by its
--              numbered steps, Payload is samePayload, Queries is the reads.
--   Ledger/Books/    the invariant of the tables (Invariant) and its proofs, one file for each use case
--              (Place, Returns, Holds, Sweep, Post, Once, Payload, Final) and for each step of PostTransaction (Deltas, Capture, Balances,
--              Entries, Steps, Outcome, Made); Listing is the holds
--              that a sweep lists, Kept the rows that Final keeps.
--   Transfer/  services/transfer/internal: State and Request are domain/state.go; Tables and Store the
--              tables and the methods of adapters/postgres/store.go; Postings is the legs of
--              app/service.go and their way through ledgerclient/client.go and the ledger's
--              grpc/server.go. Clients is the ports to the ledger and the account service, with the
--              state outside as a parameter; Validate, Saga and Create are the rest of app/service.go,
--              Recovery is app/recovery.go. Linked joins the saga's PostTransaction to
--              the ledger's. Rounds, Drive, Once, Settlement, Backing, Outcome and Stranded are proofs.
--   Identity/  services/identity/internal: Rules is domain/domain.go, Tables the statements of
--              adapters/postgres/db/queries.sql.go, Service is app/service.go; Families, Rotation and
--              Once are proofs.
--   Delivery/  pkg/outbox (Outbox) and pkg/kafka/consumer.go (Consumer); Relay and Dedup are proofs.
--   Account/   services/account/internal: Numbers is domain/domain.go, Tables the statements of
--              adapters/postgres/db/queries.sql.go, Service is app/service.go, Consumers is
--              adapters/kafka/consumers.go; Projection, Newest, Convergence and Opening are proofs.
--   Antifraud/ services/antifraud/internal: Rules is domain/rules.go, Scorer is app/scorer.go with its
--              statements; Windows is proofs.
--   Gateway/   services/gateway/internal/app/authz.go.
--   The Tests modules run the definitions on small books and hold the instances of the theorems.
--
-- How code becomes definitions. An int64 is an integer with every operation's wrap-around written out.
-- A Go map is an association list; a loop over one whose result does not depend on the order goes in
-- list order. The clock and the ids of uuid.NewV7 are arguments (`Draws`). PlaceHold tries again on a
-- lost race with no bound: the list of the ids that its attempts draw is the fuel, and `none` says that
-- they ran out; one fresh id is enough. Drive loops until a transfer is at its end or parked; each round
-- goes on with fewer transitions left, so six rounds are enough for one driver. The relay's loop has as
-- many rounds as rows that wait, and one more. Nothing else needs fuel.
--
-- Not modelled. A transaction runs as one step, so neither locks nor the interleaving inside one is
-- seen; other transactions come between the steps. A statement fails only where a constraint of its
-- table fails; a broken connection, which rolls back like any other error, is not there. Of the
-- foreign keys only those that a request can break are there; the deferred zero-sum trigger and
-- partitions are left out, and so is that the database rounds a time to microseconds. The saga is run against tables that
-- no other instance writes meanwhile, while Refresh is also run on a session that has changed since it
-- was read. Hashes, signatures, base64, the mail address parser and the broker are parameters. A shutdown
-- in the middle of a record is left out. The lists of transfers and postings by pages, the gateway's handlers, the
-- notifications and the hashing of passwords are not modelled, nor are texts of errors, logs, metrics and
-- traces, code generated from proto and third-party libraries.
pub mod Prelude
pub mod Apperr
pub mod Money
pub mod Ledger
pub mod Transfer
pub mod Identity
pub mod Delivery
pub mod Account
pub mod Antifraud
pub mod Gateway
