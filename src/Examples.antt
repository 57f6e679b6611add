-- ===== src/Examples.antt =====
-- Concrete runs of the code, and the theorems applied to them.
mod Data
mod Clients
mod Connections
mod Hubs
mod Links
mod Servers
mod Services
mod Codecs
mod Decimals
mod Calls
mod Messages
mod Hosts
mod Contexts
