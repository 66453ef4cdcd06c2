-- ===== src/Graph.antt =====
-- pkg/graph: the builder, its compilation, the run loop, the stream, checkpoints and hooks.
pub mod Core
pub mod Builder
pub mod Compile
pub mod Hooks
pub mod Checkpoint
pub mod Run
pub mod Stream
mod Tests
