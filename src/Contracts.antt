-- ===== src/Contracts.antt =====
-- packages/contracts/src/kernel: the vocabulary that the kernel's parts share.
pub mod Codes
pub mod Errors
pub mod Observation
pub mod Events
