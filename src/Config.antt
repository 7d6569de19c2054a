-- ===== src/Config.antt =====
-- The configuration's data: internal/config/config.go and internal/config/node_extensions.go.
-- A JSON object's strings and numbers are the fields; `*bool` is an optional Boolean, a Go `int` is
-- an integer, and `map[string]string` is a list of keys and values that is read by its first match.
mod Types
pub use Types.*
pub mod Validate
pub mod Fill
pub mod Conditions
pub mod Nodes
pub mod Samples
pub mod Tests
