-- ===== src/Config.antt =====
-- internal/config: the lossless reading and writing of OpenSSH client configuration.
pub mod Token
pub mod Line
pub mod Parse
pub mod Block
pub mod Comment
pub mod Include
pub mod Graph
