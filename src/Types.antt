-- ===== src/Types.antt =====
-- The types under include/div0/types other than words.
pub mod Bytes
pub mod Address
