-- ===== src/Lib.antt =====
-- Verification of hrobot-go, a Go client for the Hetzner Robot web service.
--
-- The program is a client library. A caller makes a client (client.go, `NewClient` and its
-- options) and calls the operations of the services (server.go, boot.go, firewall.go and so on).
-- An operation checks its arguments, builds a path and a form, and hands them to one of the
-- client's HTTP methods, which runs the request loop `doRequest` and then `handleResponse`.
--
-- Base holds what all parts share: Boolean tests, lists, Go strings as lists of bytes, printing
-- and reading of decimal numbers, 64-bit integers, ordering of strings, maps as association lists.
-- Url models what is used of net/url: escaping, form values, and how a server reads a query and a
-- path. Errors is errors.go: a Go error is nil, a library error, a wrapping or another error.
-- Types is types.go: Ports `ParsePortRange`, TrafficSize the decoding, encoding and printing of
-- traffic quotas, FlexibleId, StringFloat, Reset and BerlinTime the decoding of these types,
-- Scalars what they use of encoding/json and of floating point, Resources the types that only
-- carry data. UrlEncode is internal/urlencode/firewall.go. Firewall is firewall.go: Data has the
-- rules and `Equivalent`, Pending `Without`, Injected `ServerInjectedRules`, Service the
-- operations of `FirewallService`, and below it Filled, Fields, Asked, Posts and Status what a
-- server reads from the rulesets that they post; Equivalence, Versioned and Reconcile prove how
-- they belong together. Client is client.go and utils.go: Data has the configuration, World the
-- state of a run, Retry and Request the request loop, Response the handling of responses, Methods
-- the HTTP methods, Wait the polling, Utf8 `strings.ToValidUTF8`, Json and Sends what a run reads
-- and asks. Services has a module for each service file, Asks what their operations ask of the
-- service, and Settled the two loops that wait for the service. Spectest is internal/spectest: the
-- checks of the traffic and vSwitch forms (traffic.go, vswitch.go), below it Keys that of the
-- firewall form (firewall.go) and Handler and Load the handler that applies them and the loading
-- of the OpenAPI document (spectest.go). Tests applies the theorems to concrete runs.
--
-- The state of a run (Client.World) is the state of everything outside, the client's rate limit,
-- and the lists of round trips and of waits so far. The transport, the context, the clock and
-- `http.ParseTime` are fields of the parameter `Env`; encoding/json is the parameter `Json`, or
-- `ScalarJson` for the types that decode themselves, and the decoding of a result type the
-- parameter `Decoder`; `float64` is the parameter `Float`, package time `Zone`, and the OpenAPI
-- document with its router `Spec`; `url.Parse` is a parameter of `validate_base_url`. A Go map is
-- an association list whose order stands for the order of iteration. An operation is a function
-- from a world to a result and a world (`Call`).
--
-- The request loop recurses on the number of rounds that are left, which starts from the source's
-- constant 3, and the polling loop from 30: they are the loops' own bounds. `ParsePortRange` calls
-- itself on the parts between commas, which have no comma, so fuel 2 is enough.
-- The loop of `formatBytes` has fuel 6, the number of its letters, which is enough for every
-- uint64. Integers are unbounded where the source cannot overflow; where it can
-- (`Retry-After`, the read limit, the rate limit's reset) the wrap-around or the saturation of 64
-- bits is written out.
--
-- Not modelled: logging, the HTTP transport and the loading of time zones.
pub mod Base
pub mod Url
pub mod UrlEncode
pub mod Errors
pub mod Types
pub mod Firewall
pub mod Client
pub mod Services
pub mod Spectest
pub mod Tests
