-- ===== src/Lib.antt =====
-- A service that turns prompts into videos on outside platforms, seen from its bookkeeping: who pays
-- for a task, how the task lives, and what is given back when it fails. The parts modelled are
-- these; each file names the functions that it is about, and keeps their names.
--   Billing   app/billing.py: points as whole units of a tenth, and the price of a model.
--   Ledger    app/point_transactions.py: the transactions of users and their pages.
--   Tokens    app/temp_access.py: the entry of a token with its points, its video quota and the
--             reservations of tasks. Entry holds the stored fields and the migration, Quota the
--             reservation and its refund, Admin what administrators and purchases do, History a
--             sequence of such calls. Payment, Refunds, Once, Conservation, Reservations, Held and
--             AdminLaws are about these.
--   Tasks     app/store.py: the metadata of a task (Meta, and Create for a new one), the
--             handlers that change it without a retry (Update) and with one (Retry), and any of
--             them as an event (Event). Lifecycle, Bounds and Claims are about these; Outcome is
--             about the marks of a result.
--   Dispatch  app/store.py again: the expiry of a task with what it gives back (Expire) and the claim of
--             the next task (Claim). Waiting, Kept and Loop are about the candidates and the loop
--             over them, Granted and Burst about the task that is claimed, Once about the expiry.
--   Cards     app/point_cards.py: cards that are redeemed for points of a token.
--   Batch     app/batch_jobs.py: jobs of many rows (Job), the mutators of a job (Rows), the revision
--             that `_mutate_job` gives each change (Revision) and any mutator as an event (Event).
--             Cancel and Delta are about these.
--   Accounts  app/accounts.py: the accounts on outside platforms. Ledger holds the ledger of a quota
--             and what each call does to it, Select the choice of an account, Claim taking it and
--             giving it back, Quota the calls on its quota, Event any of these calls. Consistency,
--             Charges, Kept, InOrder and Invariant are about the ledgers, Order and Best about the
--             choice, which Preference writes out by itself, Refund, Give and Repay about a charge, Limit about the account that a
--             claim takes.
--   Memberships  app/users.py: the memberships that a user bought, of which one runs. State holds the
--             synchronization, Purchase the purchase; View, Sync, Loop and Entry are about the
--             first, Bought about the second.
--   Invitations  app/invitation_codes.py: the codes that a registration asks for; Codes and
--             Laws are about them.
--   Guard     app/resilience.py: the rate limit and the circuit breaker of a platform, in the local
--             state of a process, with Rate and Circuit about these; Fair deals a capacity out to owners,
--             and Level and Dealt are about that. `admit` is one step of one caller: what other
--             callers do between its parts, for each of which the source takes the lock anew, is
--             not modelled.
--   Base      texts, dictionaries, lists, integers and results.
-- A batch row becomes a task; a task is paid for by a reservation of its token at the price that
-- Billing reads from the settings; a card and a refund give points to the token, and a refund is
-- recorded in the ledger. A membership is paid for from the points of a token and sets its
-- concurrency. A worker claims a task and an account, whose quota it charges, and refunds or
-- settles the charge when the task ends.
--
-- State and calls. A stored JSON document is a record, or a dictionary as a list of pairs in
-- insertion order (Base.Dict). A function that changes a document under a lock is one function from
-- the state before to its result and the state after; a call that raises is an error value with the
-- state as it then stands. The model follows the store in files; the variants for the database are
-- not modelled. Where several calls follow each other, they are a list of events in the order in
-- which they got the lock.
--
-- Numbers and texts. Stored counters are the natural numbers that the program writes. Subtraction is
-- written so that it stops at 0 only where the source puts `max(0, ...)` or has tested the order.
-- Instants are natural numbers, with 0 for the empty text. Hashing, random drawing, the case
-- mappings of Unicode, the parsing of decimals and the text of a float belong to libraries and are
-- arguments. A loop is
-- a recursion on a list; the loop that draws a new token takes the list of draws, with no result
-- when no draw is free. The rounds that deal out a capacity run on fuel, as much as there are places
-- left: each round but the last deals at least one. The loop over memberships has one round more than
-- there are memberships, as each round but the last ends one that was active.
--
-- Not modelled: the HTTP service, the worker threads, browser automation, proxies, the database
-- layer, the rest of users, and administration; of the modelled files, what only lists records,
-- the creation of tokens and jobs, the choice of the next job, and the cleanup of files.
pub mod Base
pub mod Billing
pub mod Ledger
pub mod Tokens
pub mod Tasks
pub mod Cards
pub mod Batch
pub mod Accounts
pub mod Dispatch
pub mod Memberships
pub mod Invitations
pub mod Guard
