-- ===== src/Identity.antt =====
-- src/aries/identity: the identifiers of devices, and the tokens by which they delegate capabilities.
pub mod Did
pub mod Keys
pub mod Shamir
pub mod Ucan
pub mod Tests
