-- ===== src/Examples.antt =====
-- Small inputs on which the theorems of the development are used.
mod Data
mod Governance
mod Faults
mod Contributions
pub mod ClientSets
mod Wire
mod Sizing
mod Lead
mod Networks
mod Packing
mod Agreement
mod Clients
mod Pools
mod RemoteSessions
mod Reservations
mod Auctions
