-- ===== src/Tests.antt =====
-- Runs of the model on small inputs, and the theorems at inputs that meet their hypotheses.
mod Examples
mod Run
mod Kv
mod Store
mod Daemon
mod Docker
mod Namespace
mod Addresses
mod Proxy
mod Merge
mod Across
mod Polling
mod Url
mod Handler
mod Start
mod Life
mod Providers
