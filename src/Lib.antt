-- ===== src/Lib.antt =====
-- lume-tenant-api: the API of one tenant of Lume. Its parts are WhatsApp conversations with an
-- automatic attendant, employees with departments and permissions, requests for documents, profiles
-- with a picture, routes of passengers, support, data exchange and imports. Controllers call use
-- cases, use cases call the rules under src/domain and the repositories under src/infra/database.
--
-- What is modelled, and where. `Base` is shared; every other module names its source.
--   Base           arrays, texts, objects, sets and the errors of src/core/errors/app-error.ts
--   Access         src/domain/access: departments, the catalogue of permissions, effective
--                  permissions and the policy on managing users
--   WhatsApp.Constants, WhatsApp.Transition
--                  src/domain/whatsapp/whatsapp.constants.ts and
--                  src/domain/whatsapp/conversation-transition.matrix.ts: a conversation's snapshot,
--                  the guards, and one function for each `case` of resolveConversationTransition,
--                  put together in Transition.Matrix
--   WhatsApp.Automation
--                  src/domain/whatsapp/whatsapp-automation-flow.ts: what the attendant decides to do
--                  with a message (Plan, Menus, Contacts, Messages, Masking), the actions that follow
--                  from the output of the language model (Actions); Execution and Answers are the
--                  part of src/infra/integrations/whatsapp/api-whatsapp-automation.provider.ts that
--                  asks for the transitions of a plan and of an answer
--   WhatsApp.Inbound
--                  the part of src/infra/database/repositories/prisma-whatsapp.repository.ts in which
--                  a customer message reopens or resumes a conversation and is counted; Laws and
--                  History are about the conversation that it leaves
--   WhatsApp.Outbox
--                  src/infra/integrations/whatsapp/whatsapp-automation-event.store.ts (Claim, Settle),
--                  completeOutboxExecution, createOrderedOutbox (Messages, Complete, Report) and what
--                  reconcileAutomationOutbox does to an event (Reconcile) of
--                  src/infra/database/repositories/prisma-whatsapp.repository.ts, and what
--                  src/infra/retention/whatsapp-retention.service.ts removes of the queue
--                  (Retention): the queue of events that instances claim, accept, give back and
--                  complete; Order, Updates, Steps, Ends, Decisions, Runs and Reach are about its
--                  runs, Repeat about a report that comes twice
--   WhatsApp.Commands
--                  `transition` of the same repository: a command of a user or of the system on a
--                  stored conversation, with its table of commands, the expected version, the checks
--                  (Checks), the quote requests (Quotes), the columns and the closing message
--                  (Change, with src/domain/whatsapp/conversation-closure-message.ts) and all of it
--                  put together (Store); Stored, Carried, Refinement, Repeat and Invariant are about
--                  what a command leaves
--   Auth           src/application/use-cases/auth (authenticate, refresh-session, logout,
--                  password-change) and the repositories of users, refresh tokens and password
--                  change challenges under src/infra/database/repositories: Identifiers (with
--                  src/shared/utils/normalization.ts and src/domain/entities/user.ts), Accounts,
--                  Challenges, Sessions, Passwords, Tokens (with
--                  src/infra/auth/opaque-refresh-token.service.ts), Login and Requests are the code;
--                  LoginNames, LoginFound and LoginSession are about the login, Revocation, Links
--                  and Rotation about what a changed password and a renewed session leave
--   Routing        src/domain/routing/route.ts: the statuses of a route, its missing documents
--   Documents      src/domain/documents/document-workflow.ts: the statuses of items and requests
--   Shared.Phone   src/shared/utils/normalization.ts: telephone numbers as keys of contacts
--   Profile        src/domain/profile/profile-image.ts: PNG, JPEG and WebP
-- A plan is decided on an envelope of the conversation and then carried out by transitions of the
-- same matrix that users and the webhook go through. A stored command runs that matrix on the row of
-- a conversation, and one that closes it enters an event into the queue.
--
-- How the code is read. Enumerations of strings are data types, with a position by which `===` is
-- decided and, where a message shows it, a text. A function that throws returns a Result; the error
-- keeps its code, its message and the field of a conflict. Texts are strings of code points, or lists
-- of codes for telephone numbers, and `toLowerCase` is a parameter of the functions that use it. A
-- property that may be undefined or null is a Field or an Option. A lookup in an object literal also
-- finds what every object inherits, as in JavaScript (Base.Objects). Sets are lists without
-- repetition in the order of insertion. Instants are natural numbers. Fields of the envelope that no
-- decision reads are left out, and so are those of a database row that no branch of the modelled code
-- reads or writes.
--
-- Recursion. Functions over texts and lists recurse on them. The two loops of the inspection of a
-- picture run on fuel, one round for each byte and one more, which is enough since every round that
-- goes on starts before the end and moves forward. Running out is a result of its own, as is a read
-- past the end of the bytes.
--
-- Transactions. A database is a record of lists of rows. The advisory locks of a transaction make it
-- one step, and an error leaves the database as it was. Hashes, ids and times that a call draws are
-- arguments. The columns `updatedAt` are left out.
--
-- What is not modelled: the upload of documents, the data and links of routes, the other steps of
-- the repositories (storage of messages, quotes and proposals, what a reconciliation does to
-- messages), the validation of the language model's output, an administrator's request for a link,
-- users, data exchange and imports, each a part of its own that no modelled function calls.
-- Controllers, DTOs, the database schema, configuration and the clients of
-- external services are glue, declarations or I/O.
pub mod Access
pub mod Auth
pub mod Base
pub mod Documents
pub mod Profile
pub mod Routing
pub mod Shared
pub mod WhatsApp
