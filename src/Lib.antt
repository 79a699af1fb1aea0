-- ===== src/Lib.antt =====
-- CodeAgentRouter, an API relay in Go: an OpenAI-compatible proxy over a pool of upstream keys,
-- with hourly and daily quotas for each user, an hourly quota for each key, a rate limiter and a
-- log. This library models its core, translated function by function, and proves what makes it
-- correct.
--
-- How the parts interact. A request passes the rate limiter; the quota engine reserves an estimate
-- of its tokens on the user's counters in the store; the proxy asks the store for an upstream key,
-- which the router chooses, reserves the same estimate on that key, and calls the upstream; at the
-- end the reservations are released, or settled with the tokens that the upstream reports.
--
-- Which module models what (paths from the repository's root):
-- - Model: the records of internal/model/model.go. Text, Joined, Map, Clock, Json: what the relay
--   uses of Go's strings, maps, times and decoded JSON. Prelude.Int64: int64 with its wrap-around.
-- - Store, with a child module for each group of methods: internal/store/state.go.
--   `Store.State.Store` is the struct Store (the mutex is the order of the calls, the timer a
--   flag, the file what was last renamed into place), Store.Users, Store.Keys and Store.Counters
--   its methods under their names; Store.Changes puts the methods together as the steps of a
--   history, and the other modules are about the counters (Frame, Windows, Trips, Ledger, Limit),
--   the maps (Links, Consistent), the state file (Saved) and the secrets (Secrets).
-- - Router: internal/router/router.go, `Select` as `Router.select`.
-- - Quota: internal/quota/quota.go.
-- - Config: internal/config. Text and Yaml have yaml.go, Load has config.go, where `Settings` is
--   the struct Config; Valid, Fuel and Split are about them.
-- - Ratelimit: internal/ratelimit/ratelimit.go, `Allow` as `Ratelimit.allow`.
-- - Tokenize: internal/tokenize/tokenize.go.
-- - Report: internal/report/report.go. Log has the files, Glob the patterns of their names, Accs
--   and Rows the aggregation, Service `Write`, `Monthly` and `Close` with the cache; Totals,
--   Counts, Fresh and Cached are about them.
-- - Auth: internal/auth/auth.go; `Auth.Password` has the password hashes, over a parameter HMAC.
-- - Relay: internal/api/relay.go. Serve has the handlers up to the call of `proxy` and the list of
--   models, Next the time to come back at, which the answer of a used up hourly quota names; the
--   rest is the handler `proxy` and what it reads of an answer. Usage reads tokens, Machine is the
--   store as one request sees it, Proxy the handler, Rule an induction rule for its loop; Balance,
--   Termination and Reply are about the handler as a whole.
-- - Api: internal/api/admin.go (Api.Admin), user.go (Api.User) and server.go (Api.Routes has the
--   patterns, Api.Server the middleware around them, `Api.Server.serve` is what a request comes
--   to). Api.Action is what the handlers are written in, Views and Shared what they have in
--   common; Gate, Prefixes and Refused are about requests that are turned away, Kept, Isolation,
--   Owners, Private and Strangers about the keys of other users.
--
-- Concurrency. Each method of the store is one step under the mutex. The proxy locks the store
-- many times; before each of its calls the other requests may change the store in any way
-- (`others` of `Relay.Machine.Env`, and `others` of `Api.Action.Others` for the other handlers),
-- each call reads the clock anew, and the upstreams answer as they like. The methods that lock
-- twice take what other requests do in between as an argument, `between`: CheckAndReserve,
-- LoginUser, and Check, which deletes an expired session. Write appends its line under the
-- logger's mutex and empties the cache under the service's: `between` is there what reports are
-- asked for in between. Monthly, which holds its mutex while it reads the files, is one step.
--
-- Bounds and fuel. Tokens and limits are integers with the wrap-around of int64, and may be
-- negative, as an estimate is that has wrapped around; the theorems that need them to be zero or
-- more say so. A prompt's estimate is a natural number, since the body is at most 32 MiB.
-- Recursion is structural but for the loop of the proxy, where a key that cannot be reserved does
-- not use up an attempt: it runs on fuel. Each round uses up one of two attempts or excludes one
-- more key, so that the number of keys and two more is enough. The parser of the configuration
-- gives an inline value as much fuel as it has bytes, and one more; nested values are shorter.
--
-- Texts are lists of bytes, and letter case and white space are those of ASCII. Locations have a
-- fixed offset from UTC. A float64 of JSON is the integer that int64(x) gives. `math.Ceil` of a
-- sum of quarters is exact, and 0.35 a character is rounded up as the exact product is.
--
-- A month that a report is asked for may be a pattern of path/filepath, where a character is a
-- byte, but holds no slash, so that it stays in the log's directory. An average is kept in tenths,
-- and a line of the log that fails to be written leaves its file as it was. Paths of requests are
-- clean and without escapes.
--
-- Parameters: the tables of unicode that `isCJK` asks, encoding/json on log entries and bodies,
-- the arithmetic of float64 on averages, AES-GCM of crypto/cipher, HMAC-SHA256 of crypto/hmac, the
-- random bytes, the upstreams and the other requests.
--
-- Not modelled: the HTTP client of internal/upstream, the rewriting of the body's stream_options,
-- the texts of error messages, cmd/relay and web.
pub mod Prelude
pub mod Text
pub mod Map
pub mod Clock
pub mod Json
pub mod Model
pub mod Result
pub mod Config
pub mod Router
pub mod Store
pub mod Quota
pub mod Ratelimit
pub mod Tokenize
pub mod Report
pub mod Joined
pub mod Relay
pub mod Api
pub mod Auth
