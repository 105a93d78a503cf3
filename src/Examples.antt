-- ===== src/Examples.antt =====
-- Concrete runs, and the theorems at concrete inputs.
mod Gateway
mod Datagrams
mod Flows
mod Worker
mod Mobile
mod Admins
mod Routing
mod Accounts
mod Captures
mod Echo
mod Live
