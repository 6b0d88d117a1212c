-- ===== src/Address.antt =====
-- The address book of internal/maidenlanetx/addressbook.go, which finds the node that signs for an
-- address, and the file of hosts that it may use.
pub mod Hosts
pub mod Book
pub mod Cache
mod Tests
