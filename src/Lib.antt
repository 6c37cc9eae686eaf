-- ===== src/Lib.antt =====
-- QuotaPulse watches the balances of accounts and the renewals of subscriptions, and alerts about
-- both. A scheduler runs checks; a check reads its inputs, decides, asks the store when it last
-- alerted, sends, and saves the alert; the dashboard shows the results of the last checks.
--
-- Parts, and the code they follow:
--   Base: numbers, lists and texts that the other modules share. A text is the list of its bytes.
--   Calendar: dates, for Go's time package: AddDate, weekdays, the layout 2006-01-02.
--   Subscription.Date: internal/subscription/date.go. `on_or_after`, `renewal_before`, `covering` and
--     `evaluate` are onOrAfter, before, covering and Evaluate. The proofs stand in its children:
--     Floor and Months (months as numbers), Spec (what a renewal is), Search, Previous, Cover, Marks.
--   Subscription.Checker: internal/subscription/checker.go. `check_one` and `dispatch` are checkOne
--     and dispatch; Cooldown and Decision prove when a check sends.
--   Store: the part of internal/store/store.go that alerting uses, as a record of operations with
--     laws. Store.Volatile is internal/store/volatile.go: it has the laws (Laws), and answers as the
--     whole history of saves does (Log).
--   State: internal/state/state.go with the summaries of internal/model/model.go: balances (Balance,
--     Merge), jobs (Jobs), and the views of subscriptions and mail (Reports).
--   Cost: internal/cost/alerter.go and the spend of internal/cost/cost.go: Budget for the rounds over
--     balances, Usage for those over reported usage.
--   Runway: internal/runway/alerts.go, the alerts of short runways and of spending spikes.
--   Timeutil: internal/timeutil/timeutil.go. Sorting, First (one day), Allowed (its weekday) and
--     Next are about NextOccurrence;
--     Timeutil.Parse has ParseDailyTimes, ParseWeekdays, ParseWeeklySchedule, String and Describe: Clocks,
--     Weekdays, Sound and Weekly say what is read, and Fires joins it to NextOccurrence.
--   Scheduler: internal/scheduler/scheduler.go: when a task is due and what its next
--     time is (Round), and which tasks a round runs and how long the loop sleeps (Due).
--   Monitor: internal/monitor/monitor.go, one balance check with its alerts (`check_project`, Alerts), the
--     response cache (Cache), the choice of projects (Selection), the workers (Pool), and the redaction
--     of internal/monitor/redact.go (Redact).
--   Paging: internal/mcpserver/paging.go. Order and Sorting are about the order of rows, Cut about one
--     page, Pages about a client that follows the cursors; Cursor and Range are the cursor and the window.
--   Access: who may use the server, internal/httpapi/server.go (`with_api_key`, with
--     Callers for the agents, Granted and Guard for the whole), with the agents'
--     keys of internal/config/mcpkeys.go (Access.Keys), the sessions of internal/httpapi/session.go
--     (Access.Session) and the rate limit of internal/httpapi/ratelimit.go (Access.Limit).
-- The reminders, the balance alerts, the trend alerts and the budget alerts reach the store by the
-- same interface, so what they prove of cooldowns holds for each store with the laws.
--
-- State is passed explicitly, and a method that runs under a lock is one step. Instants and durations
-- are whole nanoseconds since an epoch, the ends of sessions whole seconds, and each reading
-- of the clock is an argument. The outcome of a delivery and the id of a subject (a hash of its name) are arguments too. Amounts are floats, so
-- their operations are a parameter; only the rate limit and the days of a window, which the code also
-- computes with floats, have exact numbers here. The lunar calendar is the package lunar-go: a parameter, with
-- the laws LunarLaws. A time zone is a parameter too (ZoneLaws asks it to keep the order of clocks and
-- days only for the eight days that NextOccurrence looks at), and so are base64, hex, HMAC, the formats
-- of times, and the regular expressions of the redaction. White space and the case of letters are those
-- of ASCII, and a message that is cut by its characters is valid UTF-8.
--
-- No definition of code needs fuel but the search of NextOccurrence, which tries 8 days as the code does,
-- and the digits of a number, which are fewer than the number and one. A client of pages sends so many requests
-- as it is given, and its theorem asks for more than there are entries. Each other recursion is on a
-- list or a number. The theorems about renewals ask for days from year 9 on, which keeps every year that the calendar goes back to a positive number.
--
-- Not modelled: logging, the wording of messages, HTTP, SQL, IMAP, the clients of the providers, and
-- the sources of the configuration. Integers are unbounded: the days and counts here stay far below 2 ^ 63.
pub mod Base
pub mod Calendar
pub mod Store
pub mod State
pub mod Cost
pub mod Timeutil
pub mod Scheduler
pub mod Runway
pub mod Monitor
pub mod Paging
pub mod Access
pub mod Subscription
