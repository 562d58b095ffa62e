-- ===== src/Session.antt =====
-- internal/session: the bootstrap, the sessions, and the confirmations of single operations.
--
-- The hash function (crypto/sha256) and the encoding of random bytes (base64) are parameters.
-- The source of randomness is the list of what its reads return, `none` being a failed read; time
-- is a number of nanoseconds, given to each call. The mutex makes each method one step.
pub mod Manager
pub mod Action
pub mod Reach
pub mod Confirm
