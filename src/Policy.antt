-- ===== src/Policy.antt =====
-- knox-proxy/policy: the JIT access rules and the body sanitizer. The proofs are in the modules below.
pub mod CleanPath
pub mod Engine
pub mod Sanitizer
