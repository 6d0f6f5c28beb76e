-- ===== src/Lib.antt =====
-- A model of goddgs, a Go library and service that searches DuckDuckGo and falls back to other
-- search services, with theorems on its parts.
--
-- The engine (engine.go, events.go, api.go) asks its providers in order until one has results. It is
-- modelled in Engine and Api: a provider is a record with a function from the request and the world
-- to results, an error and the next world, a hook is a function on the world, and the loop over the
-- providers is structural recursion on their list. The events are collected in the run, and each
-- hook sees them in the same order; Engine/Trace has the scripts that they follow, and Engine/Seen
-- what a hook makes of them. Diagnostics are built as the code builds them. A panic of a provider or
-- a hook, and a hook's view of the engine, are not modelled.
--
-- Errors (errors_api.go, and the error values of client.go) are the data type of Failure: sentinels,
-- *BlockedError, *SearchError, an error wrapped by %w, and any other error by its text. The walks of
-- errors.Is and errors.As are recursion on it. classifyError returns a new value where the code
-- writes the provider's name into the error that it found.
--
-- The providers (provider.go) are in Backend, over the parts of net/http in Net; JSON decoding and
-- the call of the network are parameters. The handler of the service (service.go) is in Service; it
-- answers with a status and a body, before the body is written. Block detection (detect.go) is in
-- Signal, its types, and Detect, its rules; a regular expression stands by its text, and matching is
-- a parameter. The configuration (config.go) is in Config, with the functions that read the
-- environment as parameters, and Config/Defaults with the client and the providers of the default
-- engine.
--
-- The circuit breaker (antibot.go) is Circuit, the rate limiter (timing.go) is Rate, and the proxy
-- pool (proxypool.go) is Proxy. Times are nanoseconds since Go's zero time, and every reading of the
-- clock is an argument, so that the theorems hold for clocks that go on between two readings. The
-- floating-point factors, the random draws and url.Parse are parameters. The mutexes make each
-- method one step; interleavings of methods are sequences of calls, which the theorems on histories
-- range over. An int of Go has 64 bits: the backoff and the seconds of a Retry-After (client.go),
-- the greatest wait of the limiter (timing.go) and the sum of the weights of a draw and the
-- round-robin position (proxypool.go) keep their wrap-around (`int64`, `int64_of`), and all other
-- numbers are unbounded.
--
-- The client (client.go) is in Client. Its state and the world that it acts on stand in Client, the
-- steps of an attempt of doWithRetry in Client/Retry and its loop in Client/Loop, which tie the
-- breaker, the limiter, the proxy pool, the session (session.go, in Session) and the solver
-- together. Client/Query builds the requests and keeps the tokens, Client/Parse reads the responses,
-- Client/Search has Search, its two ways of searching and SearchPages, and Client/Setup has
-- NewClient with NewAntiBotConfig and buildAntiBotState (antibot.go). Client/Retry/Changes sees the
-- anti-bot state as a state machine, whose steps are calls of the methods of its parts. The loop
-- runs on fuel, and a request that needs a token runs a loop of its own on the same fuel; as many
-- turns as there are tries are enough where there is no solver, and with a solver the code itself
-- sets no bound. The clock of the world is read also where the code does not need the reading. The
-- transport's last proxy, the jar, snippet, regular expressions, the JSON and HTML libraries are
-- parameters. A cookie jar is a number.
--
-- The chain of solvers (solver.go) is in Solver; the loop takes a solver as a part of the world. The
-- clients of the solving services are in Solver/Remote: TwoCaptcha (solver_2captcha.go), CapSolver
-- (solver_capsolver.go) and FlareSolverr (solver_flaresolverr.go). Two of them poll in a loop on
-- fuel, for which turns that last longer than the timeout are enough, and one more.
--
-- Browser has the user agents (ua.go), with Browser/Hints for the client hints, Browser/Headers the
-- profiles (headers.go), and Browser/Transport what RoundTrip makes of requests and responses
-- (transport.go). A body is of any type, and the decoders are parameters, of which one that refuses
-- a body leaves a rest of it. Browser/HttpClient has the constructors of http.Client
-- (httpclient.go).
--
-- Metrics is the collector (observability_prometheus.go). It gets its events one at a time; where
-- searches run side by side their events come mixed, which is a permutation of their list. Command
-- has the two programs (cmd/goddgs/main.go, cmd/goddgsd/main.go): a command gives its lines and its
-- exit code, and Command/Daemon ends with the server that is started.
--
-- Tests holds a concrete case of each theorem, and the programs that it runs.
--
-- Not modelled: the TLS handshake and the limits of http.Transport (transport.go), the registration
-- of the metrics, the parsing of flags, and the listener and the shutdown of the service, which are
-- calls of libraries.
pub mod Prelude
pub mod Signal
pub mod Detect
pub mod Failure
pub mod Api
pub mod Net
pub mod Engine
pub mod Backend
pub mod Config
pub mod Service
pub mod Browser
pub mod Circuit
pub mod Rate
pub mod Session
pub mod Client
pub mod Solver
pub mod Proxy
pub mod Metrics
pub mod Command
pub mod Tests
