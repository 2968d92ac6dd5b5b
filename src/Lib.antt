-- ===== src/Lib.antt =====
-- A model of the KingSpin game server: players stake money on a round of a room, a provably fair draw
-- picks a ticket, and the winner is paid from the pool. The server keeps a ledger of all money.
--
-- The files and the code that they model:
--   Prelude     strings, integers, lists, JSON texts and exceptions, as far as the source uses them.
--   Engine      packages/game-engine/src: Machine (round-machine.ts), Ranges (ticket-ranges.ts),
--               SpinAngle (spin-angle.ts), Draw (winner-selection.ts), EntriesHash (entries-hash.ts)
--               and Proof (fairness-proof.ts).
--   Store       the tables of packages/db/prisma/schema.prisma for money and rounds, the queries of the
--               database client that the services use on them, a transaction (Tx) and a sequence of
--               statements outside one (Service). Store.Sound says what holds of the tables between two
--               transactions: each balance is the credits less the debits of the ledger, no balance
--               is negative, and ids and idempotency keys are unique. Store.Invariant is how a
--               property of the database is shown to be kept by every statement of a handler.
--   Wallets     apps/api/src/modules/wallets/wallets.service.ts: Matches (the assertions on an existing
--               ledger row), Money (holds, deposits, reserves, refunds), Wins (round wins and fees) and
--               EntryRefund (refunds of entry holds); and Transfers (wallet-transfers.service.ts), whose
--               laws are in the files Transfer….
--   Payments    apps/api/src/modules/payments/withdrawals.service.ts: Withdrawals (the statements and the
--               refund), Review (approval, payout, mark as paid), Webhook (the user's cancellation and
--               what a provider reports), Opening and Request. Requests runs these handlers one after
--               the other; Rules, Frame, Transition, Kept and Served go through them for the money, Final
--               for a withdrawal that ended, and Late for one that ends while it is marked as paid.
--   Rounds      apps/api/src/modules/rounds/rounds.service.ts: Open, Tickets and Lock, Draw and Advance
--               (drawing, spinning, settling), Settle (the payments), Cancel and Cancellation (refunds,
--               alone or with a next round), Payout (the amounts of a settlement) and Published (the
--               proof that is shown of the latest round), on the queries of Rows. Requests runs these
--               handlers and placements one after the other, History says how a round changes in time,
--               and the files Kept… go through the handlers. LockOutcome, Assigned, Tiling, Honest and
--               Drawable are about a lock and the draw after it. Phase is public-round-phase.ts.
--   Entries     apps/api/src/modules/entries/entries.service.ts: Request and Rules (what the statement of a
--               placement reads and validates), Statement and Ledger (what it writes), Status (its
--               CASE and its row), Place (the transaction) and Handler (the request). Steps, Answer,
--               Writable and Placed read a placement backwards from its answer; Outcome, Effect and
--               Limits, Paid, Sound and Kept, and Finds, Repeat and Replay hold what follows. Runs,
--               Success, Chain and Accepted go forwards, from a request to its answer.
--
-- A withdrawal reserves and refunds money through Wallets.Money, which reads and writes the tables
-- through Store.Queries; a settled round credits money through Wallets.Wins, and a cancelled one gives
-- it back through Wallets.EntryRefund. The statement of a placement takes its snapshot as an argument
-- besides the database on which it writes, as others may commit between the two. A transaction is a
-- function of the database that returns the next database or an exception, which rolls it back. A
-- handler that runs several statements outside a transaction has an argument `others`: `others i` is
-- what other requests commit in its gap number i. Only the lookup and the creation of a main wallet,
-- and the two statements that follow a violation of a unique column, have no gap between them. The ids that the client or the database makes, the
-- clock, seeds, what a payment provider answers, and whether an advisory lock was free are arguments.
-- `Env` holds what stands for code outside the repository: SHA-256, HMAC, the order of texts in the
-- database, and the configured fee. The model returns rows where the source returns snapshots of them.
-- It leaves out the times of wallets, ledger rows and withdrawals, logs, and the metadata that is not
-- text.
--
-- Amounts are unbounded integers, as `bigint`s are; the 64 bits of a column are not modelled. The only
-- fuel is in the decimal notation of a number, where the number itself bounds its digits, and in the draw,
-- whose loop the source bounds by the largest safe integer.
--
-- Not modelled: the web application, sockets, authentication, administration, fraud rules, payment
-- providers, deposits before their credit, and the machine that drives the rounds. Of the rounds
-- service: the one SQL statement that replaces an expired round without entries, the feed of winners,
-- snapshots, caches and logs. Of the transfers: the search for a recipient, the list of transfers and
-- the risk event. Of the placements: the log of their times, and the risk scoring after the answer.
pub mod Prelude
pub mod Engine
pub mod Store
pub mod Wallets
pub mod Payments
pub mod Rounds
pub mod Entries
