-- ===== src/Kv.antt =====
-- kv.go: a dynamic configuration flattened into the key-value pairs that Traefik reads from redis.
pub mod Value
pub mod Leaf
pub mod Walk
pub mod Listing
pub mod Under
pub mod Keys
