-- ===== src/Docker.antt =====
-- docker.go: the containers of the local docker daemon, and what their labels and ports say.
pub mod Types
pub mod Names
pub mod Cache
pub mod Ports
