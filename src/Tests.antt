-- ===== src/Tests.antt =====
-- Concrete instances of the theorems, over small stand-ins for the third-party interfaces.
mod Standins
mod Room
mod Macros
mod Tokens
mod Keys
mod Sketches
mod Slots
mod Exports
mod Generated
mod Received
mod Tallies
mod Maps
mod Running
mod Systems
mod Sent
