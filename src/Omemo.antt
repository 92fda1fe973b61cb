-- ===== src/Omemo.antt =====
-- omemo/: encrypted messages.
pub mod Store
