-- ===== src/Storage.antt =====
-- internal/storage: the interface of a distributed storage provider (Types), the set-up of a cluster
-- over any provider (Setup) with the files that it writes (Files).
pub mod Types
pub mod Files
pub mod Setup
pub mod MicroCeph
