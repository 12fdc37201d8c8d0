-- ===== src/Lib.antt =====
-- Yaadegar, a self-hosted gift registry: the reservations, the co-buying pledges and the sweeps
-- of its backend (the Go code under internal/).
--
-- An owner publishes a list of items under a share link. A giver reserves units of an item, or
-- pledges money towards it together with others; the two ways exclude each other on one item. A
-- reservation may first wait for its confirmation by mail; when it ages, the decay sweep asks the
-- giver to keep or release it, and frees the item when no answer comes. Pledges that reach the
-- price are joined in a match, which every giver confirms; the co-buy sweep dissolves a match
-- that waits too long.
--
-- The parts, and the files that model them:
--   Base: strings, Booleans, integers (Int), int64 and durations with their wrap-around and
--     saturation (Int64), and tables as lists of rows with the statements on them (Table).
--   Storage: the rows and errors of internal/storage/types.go and storage.go; Storage.States: the
--     states that rows go through.
--   Sqlstore: internal/storage/sqlstore. Db is the database, the item lock and the shared
--     encodings; Reservations is reservations.go and decay.go, Contributions contributions.go,
--     Matches matches.go and matchexpiry.go, Items items.go, Lists lists.go. A
--     repository method is a function of the same name whose first argument is the bound tenant;
--     `prep` takes the clock and the id that would be minted.
--   Settings: internal/settings/settings.go. Email: internal/email/content.go.
--   World: the database with the mail that was sent, and the actions that a handler is made of.
--   Decay: internal/decay/decay.go. Cobuy: internal/cobuy/sweep.go.
--   Api: the handlers of internal/api. Offer is the lookup of a list and its item. Of
--     reservations.go and myreservations.go, ThankYou is the note to a giver, Reserve the reserve
--     on both tiers, Deadline the confirm window and its wording, Confirm the confirmation link,
--     Release the releases and the keep, Account the reservations of an account. Of cobuying.go,
--     Pledge is a pledge and the proposal of a match, Dissolve the withdrawal and the end of a
--     match, Decide the confirm and the decline, Reveal the mail of a completed match, Cobuying the
--     view of a match. Owned is the check of ownership that Lists (lists.go), Items (items.go) and
--     Archive (archive.go) begin with.
--   Limiter: internal/auth/ratelimit.go. Tickets: internal/oauthlogin/ticketguard.go.
--   Accounts: the users, reset links and access tokens of passwordreset.go, users.go and
--     accesstokens.go in internal/storage/sqlstore, as far as the recovery of an account needs them.
--     Api.Recovery: the handler that sets a new password by an emailed link, in passwordreset.go
--     of internal/api, with the policy of internal/auth/password.go. Api.ClientIp: clientip.go.
--   Tests: concrete rows and requests, and runs of the model.
-- Below a part stand the modules about it: Sqlstore.Reservations.Moves and Lifecycle (transitions
-- and histories of rows), Undo and Reconfirm (a delete after an insert, a lookup after a
-- confirmation), Sqlstore.Exclusive with its Writes and Reach (reserve and co-buy on one item),
-- Sqlstore.Capacity and its Pledges (the guarded inserts), Sqlstore.Matches.Found and Resolution
-- (the state of a match, and how it ends), Sqlstore.Lists.Calls, Owned, Sole, Titled and Overlap
-- (histories of lists and owners), Decay.Rows (the sweep seen from one row), Cobuy.Due and
-- Dissolved, Limiter.Sweeps and Lockout, Tickets.Once, Accounts.Whole, and the children of Api.
--
-- Choices of the model. An operation of the store maps a database to an error, or to a value and
-- the new database: a transaction that fails is rolled back, and a lock makes an operation one
-- step, so that an interleaving is a sequence of operations; the read and the insert of `AddOwner`,
-- which no lock joins, are also taken apart. Tables are lists of rows, newest first; an ORDER BY is
-- left out, and each definition where one is says so. A time.Time is a number of nanoseconds since
-- Go's zero time, a time.Duration an int64 number of them; the zero value "" of a state is `unset`.
-- An int is 64 bits: the sums that the code forms wrap around, and a SUM that does not fit is an
-- error of the scan. All recursion is on lists, so no fuel is needed.
--
-- Parameters. What a handler takes from outside is the record `Api.Runtime`: the clock, the random
-- ids, tokens and slugs, the hash of a token, the verdicts on an address and a captcha, the
-- functions of strings, strconv, utf8 and time, and whether the mail server takes a message. A
-- sweep takes `Decay.Env`, and the recovery of an account `Api.Recovery.RecoveryRuntime`; the
-- client address takes `Api.ClientIp.Net`.
--
-- Not modelled: failures of the database itself, among them a number beyond the 32 bits of an
-- INTEGER column of PostgreSQL, and the foreign keys that only PostgreSQL checks; a unique
-- violation by an UPDATE that installs a fresh random hash; the rendering of mails, SMTP and HTTP;
-- pages of lists and items; the settings, profile and public owner handlers; the rest of accounts
-- and tokens; domains, previews and captchas; export and import; migrations and the frontend.
mod Base
pub mod Storage
pub mod Sqlstore
pub mod Settings
pub mod Email
pub mod World
pub mod Decay
pub mod Cobuy
pub mod Api
pub mod Limiter
pub mod Tickets
pub mod Accounts
mod Tests
