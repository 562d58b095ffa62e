-- ===== src/Secret.antt =====
-- internal/secret: the passwords and passphrases that the application keeps.
pub mod Vault
