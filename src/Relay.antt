-- ===== src/Relay.antt =====
-- internal/api/relay.go: the proxy of a request to an upstream key. `Usage` reads the tokens of an
-- answer, `Machine` is the store as one request sees it between the others, `Proxy` the handler.
pub mod Next
pub mod Serve
pub mod Usage
pub mod Machine
pub mod Proxy
pub mod Rule
pub mod Balance
pub mod Reply
pub mod Termination
mod Tests
