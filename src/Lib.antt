-- ===== src/Lib.antt =====
-- Peer-Core: a multi-tenant backend for restaurants. Each restaurant is a tenant; its rows live in
-- shared Postgres tables that row-level security splits by tenant. Staff and diners call services
-- (src/vertical/restaurants, src/modules) that run in one transaction each; orders also call a
-- payment provider and a notifier, which no transaction takes back.
--
-- What is modelled here is the core that moves money (prices, the order state machine, checkout, the
-- transitions of an order with capture, void and refund), the tenancy under it, table reservations,
-- notifications, sign-in and sessions, the dispatcher of the tools that a language model proposes,
-- deliveries with what drivers are owed, restaurants and their onboarding, the menu, carts, reviews,
-- promotions, complaints, the knowledge base with the completions that answer from it, what diners
-- are told of items, and the HTTP routes of staff, diners and admins, which run all of these on one
-- database, with the answers to exceptions.
--
--   Base      shared names, tests, lists, integers over native numbers, code points of texts
--   Errors    the error classes and their codes
--   Action    an asynchronous method as a function from a world (the tables, and the state outside)
--             to a result and a world; `transaction` is `db.transaction`; Action/Keeps and
--             Action/Yields reason about such methods step by step
--   Tenancy   src/modules/tenancy/tenant-context.ts (`withTenant` is `with_tenant`), and in
--             Tenancy/Rows what a statement sees and changes under drizzle/0001_rls.sql
--   Payments  src/modules/payments: the contract (payment-provider.ts), Payments/Fake
--             (fake-payment-provider.ts; Payments/Balance counts its captures, voids and refunds),
--             Payments/Moyasar (moyasar-payment-provider.ts)
--   Orders    src/vertical/restaurants: Orders/State (order-state.ts), Orders/Pricing (pricing.ts),
--             and of order.service.ts Orders/Hours (`isOpenAt`), Orders/Lines (`resolveLines`),
--             Orders/Promo (`resolvePromo`), Orders/Checkout (`checkout`), Orders/Transition
--             (`load`, `applyTransition`), Orders/Notify (`accept`, `reject`, `cancel`,
--             `advance`, `maybeNotify`) and Orders/Reads (`getOrder`, `queue`, `listForBranch`,
--             `quote`); Orders/Tables holds the rows of src/db/schema.ts, Orders/History runs calls
--             in sequence, Orders/Moves counts the transitions that they record
--   Reservations  src/vertical/restaurants/reservation.service.ts (`ReservationService`), with the
--             constraints of drizzle/0007_reservations.sql as checks of each write
--   Notifications  src/modules/notifications/notification.service.ts, with the channel adapters as a
--             parameter
--   Identity  src/modules/identity: Identity/Crypto (crypto.ts, over a record `Node` of what
--             node:crypto and Buffer do), Identity/Tables (the auth plane of src/db/schema.ts and
--             the statements on it), Identity (auth.service.ts: `requestOtp`, `verifyOtp`,
--             `authenticate`, `grantPlatformAdmin`, `revokeSession`, `authorizeTenant`),
--             Identity/Guards (auth.guard.ts, admin.guard.ts), Identity/History (calls in sequence)
--   Tools     src/modules/tool-dispatcher: the registry and `dispatch`, which takes the authority of
--             a context from Identity
--   Deliveries  src/vertical/restaurants/delivery.service.ts, with the unique indexes of
--             drizzle/0012_hardening.sql as the conflicts of its upserts
--   Menu      src/vertical/restaurants/menu.service.ts and src/modules/catalog/catalog.service.ts, on
--             the tables of Orders, so that what they write is what checkout reads
--   Carts     src/vertical/restaurants/cart.service.ts, whose checkout runs that of Orders
--   Reviews, Promotions  src/vertical/restaurants: review.service.ts, and promotion.service.ts with
--             loyalty.service.ts, beside the tables of Orders
--   Complaints  src/vertical/restaurants/complaint.service.ts
--   Restaurants  src/vertical/restaurants: restaurant.service.ts and faq.service.ts
--   Platform  src/vertical/restaurants: onboarding.service.ts, tenant-resolver.ts and the handlers of
--             admin.controller.ts, on the tables of Identity and of Orders
--   Inference  src/modules/inference-gateway, with the provider as a parameter
--   Knowledge  src/modules/agent (kb.service.ts, conversation.service.ts) and
--             src/vertical/restaurants/menu-sync.service.ts
--   Discovery  src/vertical/restaurants: diner-agent.service.ts and driver-directory.service.ts
--   Api       `Site`, the tables of all services in one database, and on it the routes: Api/Staff
--             (src/vertical/restaurants/staff.controller.ts), Api/Diners (diner.controller.ts),
--             Api/Admins (admin.controller.ts behind its guard) and Api/Login
--             (src/modules/identity/auth.controller.ts)
--   Filter    src/common/domain-exception.filter.ts, on the errors of Errors
--
-- A service is given as `Services`: any payment provider and any notifier, each with a state of its
-- own. Orders/Invariant says when tables are consistent: order ids are unique, and an order with a
-- payment has it authorized while NEW, captured from ACCEPTED to COMPLETE, voided when REJECTED,
-- voided or refunded when CANCELLED.
--
-- Assumptions. Amounts are exact integers, which JavaScript's numbers are below 2^53. What a run
-- draws from outside (clock, UUIDs, ids, codes, tokens, salts) is an argument. A request sees the
-- tables as one state; what another request may have changed since an order was loaded is an order
-- argument that need not stand in the tables. The constraints that a checkout can meet (the total at
-- least 0, the primary key, one order for a tenant and key) are checks of the insert. No loop needs
-- fuel: each one runs over a list.
--
-- Parameters, since their code is not in the repository: what node:crypto and Buffer do, the text of
-- a UUID, ILIKE of Postgres, what it and its driver make of values in a jsonb column, the arithmetic
-- of JavaScript's floats, and the providers of payments, messages and completions.
--
-- Not modelled: HTTP itself (routing, the parsing of headers and bodies), the pages that controllers
-- serve, the route menu/sync of the staff, the network behind providers, the drawing of codes and
-- tokens, the vectors of the offline provider, columns that no operation reads, `withoutTenant`,
-- which only the safety suite calls, the channels, and the seed and migration scripts.
pub mod Base
pub mod Errors
pub mod Action
pub mod Tenancy
pub mod Payments
pub mod Orders
pub mod Reservations
pub mod Notifications
pub mod Identity
pub mod Tools
pub mod Deliveries
pub mod Filter
pub mod Menu
pub mod Carts
pub mod Reviews
pub mod Promotions
pub mod Complaints
pub mod Restaurants
pub mod Platform
pub mod Inference
pub mod Knowledge
pub mod Discovery
pub mod Api
