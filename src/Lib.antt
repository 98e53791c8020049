-- ===== src/Lib.antt =====
-- mxfactorial: a payment system in which services check, store and approve transactions. A
-- transaction is an envelope of items, each from a debitor to a creditor, and is at equilibrium once
-- every side of every item is approved. This library models the types and the services that decide
-- what is stored, approved and paid.
--
-- The parts, and the files that model them (paths from the repository's root):
--   * Types (crates/types/src): Role, Approval, Account, Rule, Item, Items, Transaction, Balance,
--     Messages and Errors follow the files account_role, approval, account, rule, transaction_item,
--     transaction, balance and request_response. A method becomes a function of the same name whose
--     last argument is the value; methods that two types share carry the type first, such as
--     item_equality and items_equality for the two test_equality.
--   * Service (crates/service/src/lib.rs): Accounts, ReadThrough (reads through the cache), Lookup
--     (transactions read back), Funds and Approve. Service.Model and Service.Cache are the traits
--     ModelTrait (crates/pg/src/model.rs) and Cache (crates/cache/src/lib.rs), as records of actions.
--   * Rule (services/rule/src): ItemRules and ApprovalRules are the two files of rules; ItemStage,
--     ApprovalStage and Label are the three stages, and Handler is apply_rules.
--   * RequestCreate and RequestApprove (services/request-create, services/request-approve): the
--     handlers. request-create asks the rule service to compute the items again, compares, stores the
--     request and approves it for its author; request-approve approves a stored one.
--   * Queue (crates/queue/src) and AutoTransact (services/auto-transact/src): transactions that rules
--     make are taken from a queue, sent through the rule service, and posted to request-create.
--   * Query (services/balance-by-account, request-by-id, transaction-by-id, requests-by-account and
--     transactions-by-account): the handlers that only read.
--   * Event (services/event/src): Pending gives each claimed transaction at equilibrium to the two
--     handlers; Gdp adds its value to its places; Threshold queues the transaction of a rule whose
--     accumulated profit meets its threshold.
--   * Pg (crates/pg/src and the From<Row> of crates/types/src): Sqls are the tables, columns and
--     statement texts of sqls/, Statements the text and the values that each query of model.rs sends,
--     Row the conversions of the rows that come back, and Queries is DatabaseConnection, which fills
--     Service.Model. Placeholders reads the parameters off a statement's text, on its own.
--   * Cache (crates/cache/src): Key is CacheKey with its texts; Redis and Dynamo are RedisClient and
--     DdbClient, which fill Service.Cache. Dynamo.Callers has the requests of several callers of
--     incr_and_check_threshold, in any order, on an accumulator that counts whole units.
--   * Uri (crates/uribuilder, crates/envvar) and Graphql (services/graphql): the addresses of services,
--     and the resolvers of queries and mutations, which post to them for the account that the token
--     claims. AutoConfirm (services/auto-confirm) is the trigger of a sign-up, which makes a test
--     user's account.
--   * Prelude, External and Effect hold what these share, and Tests runs the theorems on a small sale.
--
-- How code becomes definitions. Code that may fail returns an Outcome: a value, an error that the
-- caller sees, or a panic (the unwrap of a missing value). Code that talks to the database, the cache
-- or the network is an Action on a world, which it also changes when it fails. The source mutates
-- lists in place; here a method returns the new list. A hash map is an association list, and the
-- order in which the source iterates one is an argument. Each read of the clock is an argument, one
-- for each round of a loop.
--
-- Arguments that stand for code of others: decimals (rust_decimal), 32-bit floats and instants
-- (chrono) are records of operations in External; the JSON reader, the HTTP client, the connection
-- pool, fresh identifiers, the publisher, the commands of Redis, and the queries that are not in
-- ModelTrait are functions. In Pg, the driver is a Connection that runs a statement and returns rows,
-- whose cells are Values, and PgOps are the decimals and coordinates that a text is read as. In
-- Cache, 64-bit floats are Doubles, the JSON of a record is a Codec, and RedisCommands and
-- DynamoRequests are what the clients send. What Redis and DynamoDB promise is stated where a theorem
-- needs it: RedisLaws in Cache.Redis.Profiles, SetLaws in Service.ReadThrough.Approvers and CounterLaws
-- in Cache.Dynamo.Alone.
--
-- Fuel: only the retry loop of auto-transact has fuel, one round more than the retries that are set,
-- and it is shown to end. All other loops are structural. Numbers of 32 bits are read with their
-- bounds (Prelude.Numeral), and printing one writes at most ten digits. The counter of a statement's
-- parameters has 32 bits in the source and is a natural number here, so a theorem on a statement whose
-- length depends on its input asks for fewer parameters than that counter can count.
--
-- Not modelled: the set-up and the connections of the clients of Postgres, Redis and DynamoDB; the
-- clients of SQS, Cognito and of the network, which only call other libraries; the subscription of
-- the GraphQL service, the listener of the event service and measure, which forward messages of a
-- socket; the JSON forms, and the set-up of the servers.
pub mod Prelude
pub mod External
pub mod Types
pub mod Effect
pub mod Service
pub mod Rule
pub mod RequestCreate
pub mod RequestApprove
pub mod Queue
pub mod AutoTransact
pub mod Query
pub mod Event
pub mod Pg
pub mod Cache
pub mod Uri
pub mod Graphql
pub mod AutoConfirm
pub mod Tests
