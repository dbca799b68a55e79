-- ===== src/Lib.antt =====
-- SecArch Tickets: a web service over a PostgreSQL database that mirrors tickets of a CMDB.
--
-- A refresh (internal/secarch/ticket_sync.go) passes the refresh control, asks the CMDB through the
-- client of internal/cmdb, and stores the tickets in one transaction (internal/secarch/ticket_store.go
-- with internal/db/sql). Users read the tickets, set expected dates and add notes
-- (internal/secarch/ticket_update.go), each within the access of internal/secarch/access.go.
--
-- Files and code:
--   Base       Go's strings, errors, slices and maps; numbers, sorting, and the parameters
--              CaseTables (Unicode and PostgreSQL case mapping) and Floats (float64 results).
--   Refresh    the coordinator of ticket_sync.go: rejectRefresh is reject_refresh, and so on in
--              snake case. Status is the status string. Refresh.Flight is RefreshOpenTickets and
--              waitForRefresh: the steps of concurrent calls that share a flight; its child Control adds
--              requests for the status in between.
--   Calendar   dates, and defaultExpectedDate in Calendar.Expected.
--   Cmdb       internal/cmdb: Types the tickets, Keys the two patterns, Jql the queries, Reference
--              ParseTicketSystemReference, Matched what the pattern of a System means, Queue ListTickets and GetTicket, Systems resolveDepartmentBatch,
--              over decoded answers, Departments ResolveDepartments with its goroutines; Settings PrepareConfig and the policy of web/server.go.
--   Connection internal/db/client.go: PrepareConfig and the connection string; Reading is a reader of
--              PostgreSQL's format, which the code does not have.
--   Access     access.go and the condition of the queries.
--   Store      the tables (Row, UpdateRow, Database) and the statements; Store.Persist is
--              persistTicketSync, Store.Queries the reads and UpdateExpectedDate. The other child
--              modules hold proofs.
--   Notes      ticket_update.go with its two queries.
--   Sync       the synchronization over World, a record of what it calls: the client, the context,
--              the clock and the database server. Run is syncTickets and Bootstrap, Tracked
--              fetchMissingTrackedTickets, Departments attachDepartments, Isolate
--              resolveDepartmentsIsolated, Repairs prepareStoredTicketOwnershipRepairs.
--   Auth       internal/oidcauth: principals and the path that a login returns to; Auth.Cookies the
--              sealed cookies, Auth.SignIn login, callback and logout, Auth.Guard RequireAuth,
--              Auth.Settings ParseConfig. The other child modules hold proofs.
--   Api        internal/api: the handlers as the replies they make; Api.Statistics is
--              ClosedStatisticsHandler, over the days of Calendar.Days.
--   App        internal/appconfig/config.go and internal/httpclient/proxy.go: Load.
--   Web        web/server.go: the routes, those of the static files included, and what the guard lets
--              through to their handlers.
--   Tests      parameters with values that compute, and runs on concrete inputs.
--
-- Sign-in is over a Manager, a record of its configuration and of the calls that it makes: the cipher,
-- base64, JSON, the provider's exchange and verification, URLs. Cookies are assumed to be read back as
-- they were sent, and only what was sealed with the key to be opened by it.
--
-- Choices. Instants and durations are natural numbers of nanoseconds since Go's zero time, which is 0;
-- the clock of the service reads no earlier time. The counters of failures do not overflow. Texts are
-- lists of code points. The float64 results are exact up to 2^53, and for rounding seconds up to 2^22 s;
-- beyond that nothing is assumed of them but a positive wait. A statement that fails leaves no effect,
-- and is taken not to have moved its sequence; the statements before it have moved it, also where the
-- transaction is rolled back. A commit can take effect though its reply is lost. The order of a Go map
-- is that of its entries. A query of several rows fails, if at all, before its loop. The recursion of the
-- isolated lookup takes the number of references plus one as fuel: each half is shorter than the whole.
-- The pages of ListTickets take fuel too: the loop has no bound of its own, and one page more than the
-- largest total reported is enough; the pages of Systems are taken up to a
-- fuel that is given. A nil ticket in a queue, which the client never returns, ends the synchronization
-- with an error here and in a panic there. A configured number of seconds becomes a duration with the
-- wrap-around of 64 bits. A date that a handler is given is of the year 1 or later.
--
-- Not modelled: HTTP, JSON, OIDC and the drivers (libraries), logging, and the browser's pages.
pub mod Base
pub mod Refresh
pub mod Calendar
pub mod Cmdb
pub mod Connection
pub mod Access
pub mod App
pub mod Store
pub mod Notes
pub mod Sync
pub mod Tests
pub mod Web
pub mod Api
pub mod Auth
