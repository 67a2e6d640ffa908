-- ===== src/Tests.antt =====
-- The theorems at concrete inputs.
mod Data
mod Tables
mod Conns
mod Threads
mod Roles
mod Ends
mod Starts
mod Leases
mod Paths
mod Messages
mod Proxies
mod Files
mod Keys
mod Joins
mod Hosts
mod Daemons
mod Fetches
