-- ===== src/Lib.antt =====
-- A model of the Go SDK under go/: a client of a currency exchange, the Core, that keeps orders and
-- trades in a PostgreSQL database, settles trades through the partner's handler, and reconciles its
-- trades with the Core's by the hour.
--
-- The parts and their files:
-- - Types, Wire: the data of go/v1/types.go, and the messages and getters of go/forexv1. A code is
--   the integer that Go stores; a text is the list of its bytes.
-- - Errors: the errors of the SDK and of what it calls. A wrapped error keeps its cause.
-- - Platform: what the SDK calls and the repository does not contain, as a parameter: decimals, the
--   functions of PostgreSQL, the clock, the Core, and how each call of the database ends: it
--   succeeds, it fails without effect, or it takes effect and the answer is lost.
-- - Store: the tables of go/db.sql and the runs over them. An action takes the state to a result
--   and a state, and a transaction puts the database back if its body or its commit fails.
-- - Money: go/v1/decimal.go, go/pkg/fee.go, and Cal of go/v1/types.go.
-- - Trade: go/v1/trade.go. Trade/Statements has its SQL statements, Trade/Persist persistTrade,
--   Trade/Settle settle and markSettled, Trade/Stream runTradeStream, Trade/Subscribe
--   SubscribeTrades, Trade/Unsettled RetryUnsettled, Trade/Pull the loop that recovery and repair
--   share. Trade/Storage, Trade/Delivery, Trade/Once, Trade/Extends, Trade/Progress, Trade/Spared,
--   Trade/Untouched, Trade/Tally and Trade/Retried hold what is proved of them.
-- - Order: go/v1/order.go. Order/Check has the checks of SubmitOrder, Order/Statements the SQL
--   statements of all operations, Order/Submit SubmitOrder, Order/Cancel CancelOrder, Order/Events
--   SubscribeOrderEvents with runOrderEventStream, Order/Query the two operations that only read,
--   with GetCurrencyPairs of go/v1/partner.go. Order/Terms, Order/Inserted, Order/Repeat and
--   Order/Named are on what the statements leave of an order.
-- - Recover: go/v1/recover.go, the days of a window in Recover/Days and RecoverTrades in
--   Recover/Run, with getTradesRaw of go/v1/trade.go; GetTrades and toTrades of that file in
--   Recover/Query.
-- - Reconcile: of go/v1/reconcile.go, the window in Reconcile/Window, compareChecksums in
--   Reconcile/Checksum, Reconcile in Reconcile/Run, ReconcileRepair in Reconcile/Repair,
--   localTrades in Reconcile/Local, ReconcileDiff in Reconcile/Drill, compareTrade and sameDecimal
--   in Reconcile/Diff. Reconcile/Recorded and Reconcile/Repaired are on the row that a check and a
--   repair leave, Reconcile/Answered on when a check is sure to succeed, Reconcile/Closed is on the
--   mark of a closed hour, Reconcile/Held on the lists that a diff compares, Reconcile/LastHour on the slot of PreviousHour.
-- - Retry: go/v1/retry.go, with the interceptor in Retry/Unary and the delays in Retry/Backoff, and
--   in Retry/Reconnect the loop that both subscriptions share.
-- - Client: New of go/v1/client.go with its options in Client/Config, and the client as a whole: a
--   history is any sequence of calls of its operations, with every outcome of what they call
--   (Client/History). Client/Later says how the state may grow, and Client/Trades, Client/Inserts,
--   Client/Updates, Client/Orders, Client/Answers, Client/Runs, Client/Hours and Client/Reads that
--   each operation lets it grow so. Client/Repeat is on an order submitted twice.
-- - Time: the calendar, go/v1/timezone.go, and the layouts of days and instants.
-- - Example: go/example/main.go. Example/Start makes the client, with loadTLSConfig in Example/Tls;
--   Example/Session is the foreground, Example/Watch the goroutines, Example/Timer the time of the
--   next check. Example/Watched is on the rows that the watch leaves.
-- - Tests: a concrete platform and instances of the theorems.
--
-- Bounds. No definition takes fuel. The loop over the days of a window is structural in the days
-- left of the 31 that the code allows, the loop of the interceptor in the retries left, and the
-- catch up of the example in the hours left. A stream is a list of messages with the error that
-- ends it, and a subscription a list of such streams: both run for ever in the code, and the list
-- is the part that has happened. Delays are signed 64-bit numbers whose shift wraps, as in Go.
-- Years end at 9999, past which Go prints five digits.
--
-- Left out: the connection of gRPC, which runs the interceptors that New of go/v1/client.go gives it,
-- and the generated services, which are parameters, as are the certificates and files of
-- go/example/main.go; the cancellation of its group of goroutines; the time of a check in the info
-- column; log lines; fractions of a second; the columns `updated_at`; two sessions at work on the
-- database at once. The numbers of a sequence are used without gaps, and where Go walks a map in no
-- fixed order the model takes one order. An error that the source words in Russian is worded in
-- English.
pub mod Common
pub mod Errors
pub mod Types
pub mod Wire
pub mod Platform
pub mod Store
pub mod Money
pub mod Trade
pub mod Order
pub mod Retry
pub mod Recover
pub mod Reconcile
pub mod Time
pub mod Client
pub mod Example
pub mod Tests
