-- ===== src/Controller.antt =====
-- internal/controller: the cluster's state on disk, the server that nodes register with, and the
-- background orchestration.
pub mod Types
pub mod Store
pub mod Master
pub mod Handler
