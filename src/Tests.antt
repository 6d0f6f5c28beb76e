-- ===== src/Tests.antt =====
-- Runs of the model on concrete inputs, and the theorems applied at such inputs.
mod Engine
mod Service
mod Failure
mod Breaker
mod Limiter
mod Proxies
mod Backends
mod Detection
mod Settings
mod Retries
mod Routes
mod Solvers
mod Searches
mod Wholes
mod Remotes
mod Browsers
mod Commands
mod Daemons
mod Traces
