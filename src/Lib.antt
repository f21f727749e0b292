-- ===== src/Lib.antt =====
-- KNOX, a proxy in front of n8n. A request first meets the chain of main.go: Logging makes an
-- empty context, Auth puts the user of a live session there, Policy asks the policy engine whether
-- the user's JIT roles allow the request and, for a change of a workflow, the sanitizer whether
-- its body is harmless; then the proxy sends it to n8n with the cookie of the user's team, which
-- the cookie pool keeps. Users get JIT roles by tickets: the JIT API creates, shows, cancels and
-- updates them, in a table, and the scheduler starts and ends the access by timers.
--
-- Each part is a tree of modules. The definitions stand in the module of the part, what is proved
-- in its children.
--
-- Base has what the others share: Boolean tests, lists and texts over the native numbers, maps as
-- association lists (Base/Dict), strings.Split and strings.Join (Base/Split). A string is the list
-- of its bytes. Json is decoded JSON, and Http requests, responses and headers. World is what is
-- outside and answers: n8n and the clock, with its state passed on explicitly. Context is the user
-- in a request's context, with resolveTeam.
--
-- Policy/Engine is knox-proxy/policy/engine.go: evaluate is Evaluate, evaluate_mutation is
-- evaluateMutation in two steps, demand (what is asked for) and judge (the roles).
-- Policy/CleanPath is path.Clean of Go's library, which Evaluate calls, and Policy/Sanitizer is
-- knox-proxy/policy/sanitizer.go.
--
-- Session is knox-proxy/auth/session.go: create_session, get_session, destroy_session,
-- destroy_by_keycloak_sid and clean_expired on the manager's two maps. Cookie is
-- knox-proxy/cookie/pool.go, Credential is knox-proxy/credential/provider.go and env_provider.go,
-- Proxy is knox-proxy/proxy/handler.go (serve_http is ServeHTTP, split at its early returns), and
-- Middleware is knox-proxy/middleware/chain.go with the chain of knox-proxy/main.go.
--
-- Jit is knox-proxy/jit: Ticket is models.go, Repository and Listing are repository.go, Scheduler
-- is scheduler.go, and Validate, Handler, Admin, Listing, Numbers and Routes are handler.go.
-- Schema is the table that migrationSQL of db.go declares: what PostgreSQL checks when a row is
-- written. Migration is Migrate. The process of the JIT API is a record of the table, the timers
-- and the tickets sent to the webhook. Any query may fail, as a list of faults says. The webhook
-- is sent in a goroutine; here a ticket counts as sent when FireWebhook is called. What PostgreSQL
-- checks is a part of create_ticket; a text with a NUL byte, and a text that is too long by spaces
-- alone, which PostgreSQL cuts off, are not told apart from others. Routes/Steps has the four
-- things that a request to the API can do to the process; what holds of the process over time
-- (Routes/Rows, Routes/Identity, Routes/OnTime, Routes/Table, Routes/Told) goes through them, and
-- through the steps of a timer (Scheduler/Identity, Scheduler/Firing, Scheduler/Targets,
-- Scheduler/Told).
--
-- Numbers: instants and durations are nanoseconds as natural numbers; the duration of a period
-- stops at the largest of Go's, 2^63 - 1, and the lifetime of a session wraps as the product of
-- two int64 does (Session, expiry). The delay of a timer and the lifetime of a cookie are not cut
-- off. The only fuel is in Jit/Numbers, for writing a number n in decimal digits: it is n + 1,
-- more than the number of digits. The loops of Retry make the ten attempts that the source makes.
-- Every other loop is structural.
--
-- Oidc is knox-proxy/auth/oidc.go: login_handler, callback_handler and logout_handler, and the
-- states of the logins under way (put_state, take_state, clean_states). Logout is
-- knox-proxy/auth/backchannel.go: backchannel_logout is ServeHTTP, split at its early returns, and
-- validate_logout_token is validateLogoutToken. Credential/Vault is
-- knox-proxy/credential/vault_provider.go, whose methods return a result or an error, the provider
-- and the state of Vault. Config is knox-proxy/config/config.go with load_from_env for LoadFromEnv
-- (Config/Reads says what each variable gives), and Retry has the loops of NewDB
-- (knox-proxy/jit/db.go) and NewOIDCAuth.
--
-- Server is knox-proxy/main.go: serve is the mux, which finds the page of a path and calls its
-- handler on the state App of the whole process, that is the logins, the sessions, the JIT system,
-- the cookies, and what is outside. Server/Events has the runs of the server as an inductive type:
-- requests, the ticks of its goroutines, timers, and time that passes, in any order;
-- Session/History has the histories of the sessions. Server/Boot is the start of the server: boot
-- goes through the steps of main in their order, with each exit, and gives the state that the
-- server starts with. Server/Startup has the steps that read the key of the admin API and fetch
-- cookies ahead. Audit is knox-proxy/audit/audit.go: where the lines of the audit log go.
--
-- Outside the model, as parameters: decoding JSON and YAML, RFC 3339, UUIDs, query strings and
-- forms, the cookie of a request, what net/url and ServeMux make of a URL, the libraries oauth2
-- and go-oidc, random bytes, the environment, Vault, n8n and the clock. The mutexes make each
-- operation on sessions, logins, cookies and timers one step; of requests that overtake each
-- other, only the steps of GetCookie are interleaved (Cookie/Interleaved), and a timer with those
-- of a revocation (Jit/Admin/Race). Lifetimes are natural numbers; Server/Boot counts a negative
-- one as 0.
--
-- Tests has the examples at concrete values; Tests/Suite runs the cases of the repository's own
-- tests (knox-proxy/policy/engine_test.go, knox-proxy/jit/models_test.go,
-- knox-proxy/jit/handler_test.go) on the model.
--
-- Not modelled: what log lines say; the settings of the pool of database connections; the
-- shutdown.
pub mod Base
pub mod Audit
pub mod Json
pub mod Http
pub mod World
pub mod Context
pub mod Policy
pub mod Session
pub mod Cookie
pub mod Credential
pub mod Proxy
pub mod Middleware
pub mod Jit
pub mod Logout
pub mod Oidc
pub mod Retry
pub mod Config
pub mod Server
pub mod Tests
