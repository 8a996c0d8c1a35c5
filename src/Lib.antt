-- ===== src/Lib.antt =====
-- The control plane of nauts: the Angular application of ctrlp/src/app, which edits the policies and
-- bindings that the authorization service of the repository reads from a NATS KV bucket.
--
-- The parts, and how they interact. `NatsService` keeps the connection to the server and the bucket
-- that is open over it; `AuthGuard` lets a route be entered once a connection is up and its bucket
-- answers. `KvStore` reads and writes JSON values in that bucket, with the revision of a key as
-- the condition of a write. `PolicyStore` loads the bucket, follows its changes by a watch and keeps
-- two maps, of policies and of bindings, which it tells apart by their keys (`KvKeys`); its writes
-- go to the bucket and come back by the watch. The validators check what the forms of the pages
-- hold. The pages show what the two maps hold and call the writes when a dialog is closed.
--
-- The files, and the code that each models:
--   * Base: texts as lists of character codes, with `startsWith`, `includes`, `split` and `trim`;
--     a `Map` as an association list in the order of insertion (Base/Dict); decimal numerals; a
--     stable sort.
--   * Models: ctrlp/src/app/models/policy.model.ts and binding.model.ts.
--   * Thrown: errors as values, and calls that may throw in a state (`Exec`); NatsError,
--     ConflictError and NotFoundError.
--   * KvKeys: ctrlp/src/app/services/kv-keys.ts: policyKey, bindingKey, parsePolicyKey,
--     parseBindingKey, stripGlobalPrefix and the others. KvKeys/Greedy says what the two regular
--     expressions match, KvKeys/RoundTrip and KvKeys/Kinds what that means for keys.
--   * ResourceValidator: ctrlp/src/app/validators/resource.validator.ts, whole. The grammar of
--     resource names is ResourceValidator/Grammar, which does not use the code.
--   * Validators: ctrlp/src/app/validators/policy.validator.ts and binding.validator.ts.
--   * NatsService: ctrlp/src/app/services/nats.service.ts: connect, reconnect, disconnect,
--     monitorConnection (`on_status`), checkBucketExists, createBucket, getKvBucket, and the reading
--     of errors (NatsService/Errors). NatsService/Reach has its states as a step relation, and
--     NatsService/Overlap the calls cut at their awaits, which then overlap.
--   * AuthGuard: ctrlp/src/app/guards/auth.guard.ts.
--   * KvStore: ctrlp/src/app/services/kv-store.service.ts: get, list, listByFilter, listAll, put,
--     create, delete and the loop of watch. KvStore/Client is what the client library offers, and
--     KvStore/Bucket what the theorems rely on of it.
--   * PolicyStore: ctrlp/src/app/services/policy-store.service.ts: handlePut, handleDel, the
--     callback of the watch, initialize, destroy, the lists, lookups and writes.
--   * LoginPage: ctrlp/src/app/pages/login/login.component.ts: the constructor, onConnect,
--     onInitialize, onBack, buildAuthMethod.
--   * PoliciesPage: ctrlp/src/app/pages/policies/policies.component.ts: loadPolicies, applyFilter,
--     selectEntry, the status, and what follows the closing of its dialogs.
--   * PolicyDetails: ctrlp/src/app/pages/policies/policy-details.component.ts.
--   * AccountService: ctrlp/src/app/services/account.service.ts, discoverAccounts.
--   * StatementsView: ctrlp/src/app/shared/statements-view.component.ts, with the routes of policies of
--     ctrlp/src/app/app.routes.ts. StatementsView/Links follows a link to the page.
--   * Frame: ctrlp/src/app/app.component.ts, ctrlp/src/app/services/navigation.service.ts and
--     ctrlp/src/app/shared/connection-banner.component.ts.
--   * BindingDetails: ctrlp/src/app/pages/bindings/binding-details.component.ts. Simulator:
--     ctrlp/src/app/pages/simulator/simulator.component.ts.
--     The saved state of the simulator is what its JSON stands for.
--   * BindingsPage: ctrlp/src/app/pages/bindings/bindings.component.ts: loadBindings, applyFilter,
--     selectEntry, the dangling policies, and what follows the closing of its dialogs.
--   * PolicyDialog: ctrlp/src/app/pages/policies/policy-dialog.component.ts. PolicyDialog/Editing has
--     its handlers as a step relation.
--   * BindingDialog: ctrlp/src/app/pages/bindings/binding-dialog.component.ts. A form of the
--     framework is the values of its controls, and its validity an argument.
--   * BucketDialog: ctrlp/src/app/shared/bucket-export-dialog.component.ts.
--   * Tests: the theorems at concrete inputs, and a bucket in memory that meets KvStore/Bucket.
--
-- State and calls. A service is a record of its fields, and a method a function from the state to its
-- answer and the next state. A call of the client library is an argument, as the answer it gives or
-- as a call in a state of its own. A call of the connection is one step, with what it awaits answered
-- before the next call or event comes, except in NatsService/Overlap, where it is several steps and
-- any other call or event may come between them. A promise is the outcome that it settles to, an
-- observable its last value. `JSON.stringify` and `JSON.parse` enter as a pair of functions of which
-- the second undoes the first. All loops are over lists; only the digits of a number take fuel, one
-- more than the number, which suffices. A character is a code of a text, and no arithmetic can
-- overflow.
--
-- A policy that the policy dialog reads from JSON is read part by part, and reading may throw on the
-- way. `Array.prototype.sort` is an argument where a table is sorted: the comparators of the tables are
-- never 0, so the engine decides the order. KvStore/Bucket takes every key for one that the client
-- library accepts.
--
-- Not modelled: the templates of the pages, but for the warning of the details of a policy, JSON whose
-- `name` or `account` is no text, the configuration file, the start-up of the framework, and the parts
-- of the repository in Go (policy, auth, identity, provider, jwt and cmd), which run on the server.
pub mod Base
pub mod Models
pub mod Thrown
pub mod KvKeys
pub mod ResourceValidator
pub mod Validators
pub mod NatsService
pub mod AuthGuard
pub mod KvStore
pub mod PolicyStore
pub mod BindingDetails
pub mod Simulator
pub mod LoginPage
pub mod PoliciesPage
pub mod StatementsView
pub mod PolicyDetails
pub mod PolicyDialog
pub mod AccountService
pub mod BindingDialog
pub mod BindingsPage
pub mod BucketDialog
pub mod Frame
pub mod Tests
