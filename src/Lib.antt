-- ===== src/Lib.antt =====
-- A verification library for mrdns, a web application that manages DNS zones in an SQLite database
-- and deploys them to name servers over SSH.
--
-- The parts of the program and the files that model them
--   internal/zone: zone files. Zone.antt is zone.go (Parse, Render, Records, Serial),
--     Zone/Serial.antt serial.go (BumpSerial, nextSerial, dateSerial), Zone/Edit.antt edit.go (Add,
--     Remove, Replace, newRRWithOrigin), Zone/Build.antt build.go (Build, SOA, DataRecords,
--     NormalizeRecord, dnsMbox). A `Zone` is its origin and its list of records; a method that
--     changes a zone returns the zone after the call.
--   internal/store/store.go: the database. Db.antt has the three tables of `migrate` and the runs of
--     statements and transactions, Db/Sql.antt one function for each SQL statement, with primary
--     keys, foreign keys and cascades; Store.antt the operations on zones and records,
--     Store/Snapshots.antt Publish and the history, Store/Import.antt ImportZone and
--     RestoreSnapshot, Store/Rendered.antt Build and Dirty. A method is a run: it takes the database
--     and returns its result or error and the database after it.
--   internal/deploy: Deploy.antt is result.go, Deploy/Quote.antt the quoting and the paths of ssh.go,
--     Deploy/Ssh.antt what its connections open and close, Deploy/Remote.antt the types and
--     Deploy/Pipeline.antt the functions of pipeline.go. The goroutines of a phase each write the
--     slot of their own target, so the results are functions of the slots; the order of what they
--     do on the servers is left open in Deploy/Pipeline/Trace.antt, where a run of a phase is any
--     merge of what its goroutines do.
--   internal/web: Web/RateLimit.antt is ratelimit.go, Web/Diff.antt diff.go, Web/Session.antt
--     session.go and the check of middleware.go. Web/World.antt has the state that a handler reads
--     and changes, the database, the map of the limiter, the audit trail and the counters, and the
--     steps that handlers are made of; Web/Forms.antt the form values and rows of zones.go and
--     types.go, Web/Response.antt the answers, Web/Moment.antt what handlers.go and zones.go do
--     alike. A handler is the tree of its acts, and net/http runs the requests at once:
--     Web/Service.antt has the requests that are open, the steps in which one of them takes an act,
--     arrives or is answered, a handler that panics, and the process that ends and starts again.
--     Web/Handlers/Login.antt and Web/Handlers/Pages.antt are the handlers that only show,
--     with login and logout, and Web/Handlers/Records.antt and Web/Handlers/Zones.antt those that
--     change records and zones. Web/Deploying.antt is handleDeploy up to its page as one step on the
--     database, which takes a zone from the store, bumps its serial, runs the pipeline and
--     publishes the content; Web/Handlers/Deployed.antt relates the acts of the handler to it.
--     Web/Server.antt is `Handler` of server.go: the routes, the guard around them and the count of
--     requests.
--   cmd/mrdns: Commands.antt is import.go, the import command, and Commands/Service.antt main.go, the
--     start and the end of the process. Resources.antt has the acts that open and close something,
--     which Commands/Service.antt, Deploy/Ssh.antt, Zone/Check.antt (check.go, the run of
--     named-checkzone), Store/Open.antt (Open) and Audit/File.antt use.
--   internal/audit/audit.go: Audit.antt, and Audit/File.antt for the loggers and their file.
--   internal/metrics/metrics.go: Metrics.antt.
--   internal/config/config.go: Config.antt, from the parsed YAML on, and the sort of ServerNames in
--     Text/Order.antt.
--   Text.antt, Text/Numbers.antt and Text/Paths.antt have the functions of Go's `strings`, `strconv`
--   and `path` that the program calls; Prelude.antt the shared names and lemmas. The store calls the
--   zone package to parse, build and read zones.
--
-- Parameters
--   github.com/miekg/dns is the record `Dns` of Dns.antt; the laws that some theorems assume of it
--   are `IsLawful`, `KeepsSerial` of Web/Deploying/Restored.antt, on the serial that the parser
--   reads of a zone, and `ReadsSerial` of Store/Rendered/Clean.antt, on what it makes of a zone's
--   new serial; Tests/Sample.antt, Tests/RestoredRuns.antt and Tests/CleanRuns.antt have instances
--   that meet them. The SQLite driver's failures are the list `faults` of a `Db`: at each statement
--   the driver fails or does not. The servers' answers, the local named-checkzone and the DNS query
--   are the record `Remote`. Times are what the code reads of them, and time stamps of rows are
--   texts given to the call.
--   The codecs and the HMAC of a session cookie are the record `Codec` of Web/Session.antt.
--   What a request meets outside the program, the times, the drawn token, the servers' answers and
--   the file server of static/, is the record `Moment`; what a handler reads of the request is the
--   record `HttpRequest`, and the pattern that net/http's mux finds for its path comes with it.
--   The errors of the SSH and SFTP libraries are the record `Network`, and what the import command
--   meets outside the program the record `Machine`. The record `Boot` is what the start of the
--   process meets, `Opening`, `Files` and `Tool` what the opening of the database, the audit log
--   and the run of named-checkzone do, and `Command` how a command over SSH ends.
--   The environment, hex decoding and the random source are the record `Process` of Config.antt.
--   `strings.ToUpper`, whose tables are Unicode's, is an argument.
--
-- Bounds and fuel
--   A uint32 is a number with `% 2 ^ 32` where the code adds or multiplies. The only fuel is that of
--   `decimal`, ten digits, which every uint32 fits, and nineteen for the counters, ids and numbers of
--   records, which are int64. A counter does not wrap, since no run of the service fills an int64.
--   Loops are structural recursion. `keep` of the store is at least 1 after Open, where every number
--   up to 0 stands as 0.
--
-- Not modelled
--   The reading of the configuration file and the flags; the templates and the headers of a
--   response but for the cookie; the text that a wrapped error adds, since an error is its
--   constructor; log lines; the contexts of requests, whose cancellation is one of the errors that
--   a call outside the program may give. One call of the store is one act of a handler: that
--   another request may change the database between two statements of such a call that are not in
--   one transaction is not modelled.
pub mod Prelude
pub mod Text
pub mod Dns
pub mod Resources
pub mod Zone
pub mod Db
pub mod Store
pub mod Deploy
pub mod Web
pub mod Audit
pub mod Metrics
pub mod Config
pub mod Tests
pub mod Commands
