-- ===== src/Nft.antt =====
-- The kernel rules of internal/proxy/nft.go and what is done with sets of them: their identities,
-- the ranges of ports that retire and that a replacement may take, and the ranges that a rule and a
-- tracked connection share (nft_recovery.go, nft_journal.go, nft_conntrack.go).
pub mod Ports
pub mod Keys
pub mod Path
pub mod Specs
pub mod Conntrack
pub mod Disk
pub mod Backend
