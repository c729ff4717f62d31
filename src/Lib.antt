-- ===== src/Lib.antt =====
-- Skytap: an intercepting proxy with a registry of hosts, rules that mock or rewrite, and an admin
-- interface.
--
-- The proxy (module gomitm, not part of this repository) asks the application on each connection and
-- request; the application reads the registry and the rules, and each finished flow goes to the
-- registry's ring and to the WebSocket clients. The admin interface and the MCP endpoint change the
-- registry and the rules and save both in the data directory, from which main loads them.
--
-- Text is a list of bytes. A map of Go is a list of entries in the order of their insertion, which
-- fixes the order of iteration that Go leaves open. A method that holds its mutex throughout is one
-- function from state to state; interleavings are sequences of such steps. What a handler does outside
-- the mutexes, the saving, is steps of its own in Concurrent.
--
--   Registry   registry.go: one function per method; Registry/Spec has the calls as events, and a
--              ledger that keeps all of them.
--   Rules      rules.go: the engine, matching, responses of mock rules, rewriting of requests.
--   Script     rules.go: markers, template shorthands, the choice of the script, and the functions of
--              scripts that read the clock (Script/Clock).
--   App        app.go: OnConnect, OnRequest (with two reads of the rules, between which others may
--              change them), OnFlow, the pin-bypass switch.
--   Config     config.go: loadPersist and savePersist on a disk (Disk) whose writes may fail.
--   Ws         ws.go and hub.go: writeWSFrame, readWSFrame, the hub, what each client receives, and
--              handleWS (Ws/Session).
--   Flow       mcp.go: the views of flows, with UTF-8 validity (Text/Utf8) and Base64 by clauses.
--   Mcp        mcp.go: handleRPC and callTool.
--   Handlers   admin.go: the handlers of the hosts, the history, the flows, the states and the rules.
--   Panel      admin.go: those of the certificate, the TLS policies, the switch and the page.
--   Admin      admin.go: the token and the choice of the handler. Server is the state that the
--              handlers share with Mcp; Server/Recovery is about loading it again.
--   CaTrust    ca_trust.go: the system's trust store and its marker, on a machine given by System.
--   Program    connections, requests, flows, calls of the admin interface and WebSocket clients as one
--              sequence of steps on one state; calls of the admin interface come one at a time.
--   Concurrent the handlers of admin.go and mcp.go as threads, with the steps of savePersist (config.go)
--              and SetPinBypass (app.go) between those of others: what holds of handlers that come one at
--              a time (Concurrent/Serial), and what can happen to others.
--   Proxy      proxy.go: the conversations of the SOCKS5 proxy and of the HTTP proxy, the two copies
--              that it relays with (Proxy/Relay), and the accept loops (Proxy/Accept).
--   Net        net.SplitHostPort and net.JoinHostPort, and decimal numbers.
--   Flags      main.go: the helpers of the flags, the seed, the start of registry and rules.
--   Main       main.go: from the flags to the accept loop; Main/Lifetime is about the next start.
--   SslKit     sslkit.go: the TLS policies of hosts and the clients' configuration.
--   Http, Disk, GoMap, Text, Common  what the others share.
--   Tests      runs at concrete inputs.
--
-- Integers: a hit counter is taken modulo 2 ^ 64, a number of mustPort and parseInts is the bit
-- pattern of an int, a length that make refuses, of more than 2 ^ 48 bytes, makes the frame
-- reader panic. Fuel: the scan of a template has the length of the text, of which each step takes at
-- least one byte; the loop of
-- handleWS has one more than the length of the client's bytes, of which a frame takes two; a number is
-- printed with one more than itself, of which each step takes a division by ten.
--
-- Parameters: case and space beyond ASCII (Unicode), the Starlark interpreter and text/template
-- (Engines), encoding/json (Codec, JsonObjects, BodyDecoder, RpcDecoder), certificates and captured
-- chains (Toolkit), loading the certificate authority, the operating system (CaTrust.System), SHA-1,
-- the formatting of times, http.ReadRequest, random bytes, IP addresses (Addresses), and the fields of
-- gomitm.Flow.
--
-- Not modelled: what the modules gomitm and skydst do (TLS, the installation of capture rules),
-- deadlines of connections, the page of the interface, and the client kit under sslkit.
pub mod Common
pub mod Text
pub mod GoMap
pub mod Registry
pub mod Http
pub mod Script
pub mod Rules
pub mod Disk
pub mod App
pub mod Config
pub mod Tests
pub mod Ws
pub mod Flow
pub mod Net
pub mod Flags
pub mod Concurrent
pub mod Main
pub mod Program
pub mod Proxy
pub mod CaTrust
pub mod SslKit
pub mod Server
pub mod Mcp
pub mod Handlers
pub mod Panel
pub mod Admin
