-- ===== src/Proxy.antt =====
-- labs/09-proxy: the object cache of cache.c and the bounded buffer of sbuf.c.
pub mod Cache
pub mod Queue
pub mod Requests
pub mod Responses
mod Tests
