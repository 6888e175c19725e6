-- ===== src/Lib.antt =====
-- cloudflared-fips, the control plane of a fleet of FIPS-compliant tunnel nodes: a model of its core
-- and the theorems that make it correct.
--
-- The parts and the files that model them:
--   * internal/compliance/checker.go and types.go: Compliance. `GenerateReport` is `generate_report`,
--     `OverallStatus` is `overall_status`.
--   * pkg/audit/audit.go: Audit. The logger is a record with its ring; `Log` is `log_event`,
--     `RecentEvents` is `recent_events`.
--   * internal/dashboard/auth.go: Auth. `ServeHTTP` is `serve_http`, a function of the middleware's
--     state and the readings of the clock; its audit events come back with the answer.
--   * pkg/alerts: Alerts. `onEvent` is `on_event`, a listener of the audit log; the retry loop of
--     `sendWebhookWithRetry` is `send_with_retry`, with the answers of the attempts as a function.
--   * pkg/fleet: Fleet. Fleet/Db has the tables of sqlite.go and the driver; Nodes, Tokens, Reports,
--     Remediations and Summary have its statements; Enrollment has enrollment.go, Monitor has the
--     check of monitor.go. Along relates the database before and after a composed action.
--   * internal/dashboard/fleet_handler.go: FleetApi. Each `HandleX` is `handle_x`, a function of the
--     server's state; Serve has all of them as one function of the request, and runs of requests.
--   * pkg/fleet/remediate: Remediate. `Plan` is `plan`, `Execute` is `execute`; Host has the commands
--     that the installers run, over a host that answers each of them. The `-remediate` mode of
--     cmd/agent/main.go is `remediate`.
--   * pkg/clientdetect: ClientDetect. The inspector is a record with its log, `GetConfigForClient` is
--     `get_config_for_client`; Fingerprint has `compute_ja4`, Posture the reports of devices, Checks
--     the section of client checks and Mdm the client of Intune and Jamf with its cache.
--   * pkg/cfapi: CfApi. `get`, `patch`, `post`, `put` and `delete` are the methods of client.go, with
--     the network as a function; Zone and Tunnels have the typed calls, Edge the checks of checker.go
--     and Accounts the discovery of accounts.
--   * pkg/fipsbackend: FipsBackend, over a record of what the build says of itself; Migration has the
--     migration status.
--   * internal/selftest/selftest.go and ciphers.go: SelfTest. Checks has the checks, Reports the
--     collections of results, `GenerateReportWithOptions` is `generate_report_with_options`.
--   * internal/compliance/live.go: Live. Each `checkX` is `check_x`, a function of what the system
--     answers; Tunnel, Service, Operations and Credentials have the checks of one section each or a
--     part of it, Run has the sections.
--   * pkg/deployment/tier.go: Deployment. internal/tui/config/validate.go: Config, a validator for each
--     of its own. internal/ipc/ipc.go: Ipc, with `dispatch` and `handle_conn`.
--   * Prelude has what these share: tests, lists, association lists, texts, signed numbers.
-- The agent plans remediation from the section that the server also sees, and the server asks it for
-- the actions; the checks of Live and SelfTest ask FipsBackend, and Ipc answers with their reports.
-- The fleet API calls enrolment and the store, the monitor writes the same store, and both send to
-- one event channel. The middleware logs to the audit log, whose listeners the alerts are.
--
-- How it is modelled. A method under a mutex is one step. A store method is an action on the database:
-- it may fail where the driver says so, and it keeps what was written before a failure; within one
-- call the driver fails a kind of statement always or never. Texts are
-- native texts, counts and times native numbers; times are nanoseconds in Fleet, FleetApi, Auth and
-- Alerts, where a stored time has whole seconds, and seconds in the other parts. `time.Duration` arithmetic, of a token's lifetime and of
-- the waits between two attempts of a delivery, wraps at 64 bits. A call takes every
-- reading of the clock and every random text as an argument. SHA-256 is the parameter `hash`.
-- Loops are structural; `decimal` prints with fuel 20, enough for the digits of any 64-bit number.
--
-- What the host answers (files, processes, handshakes, certificates, commands) is a record of
-- functions that the checks take; a panic of a slice expression is none. Texts that the source cuts
-- by bytes are of single-byte characters. A line of a local connection carries its size, since the
-- scanner gives up on one of a mebibyte.
--
-- Not modelled: network and file input and output, log lines, the stream of server-sent events, the
-- JSON encodings (a decoded body is an option), the known-answer tests of internal/selftest/kat.go,
-- which call the cryptographic library, the probes of pkg/fleet/agentchecks.go, the reverse proxy of
-- internal/compliance/proxy.go, the screens of the terminal interface and the flags of the commands.
pub mod Prelude
pub mod Compliance
pub mod Audit
pub mod Auth
pub mod Alerts
pub mod Fleet
pub mod FleetApi
pub mod Remediate
pub mod ClientDetect
pub mod CfApi
pub mod FipsBackend
pub mod SelfTest
pub mod Live
pub mod Config
pub mod Deployment
pub mod Ipc
