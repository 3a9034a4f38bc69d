-- ===== src/Tests.antt =====
-- Concrete runs of the definitions, and the theorems at concrete inputs.
pub mod Data
mod Contents
mod Checksums
mod Packets
mod Decoders
mod Messages
pub mod Clients
mod References
mod Words
mod Requests
mod Urls
mod Identities
mod Addresses
mod Calls
