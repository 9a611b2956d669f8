-- ===== src/Safety.antt =====
-- The life of the jobs under every action of the program: the rules for the stores and the outside
-- here, the handlers, the pipeline and the worker in the modules below.
mod Stores
pub mod Handlers
mod Reading
pub mod Pipeline
pub mod Flush
pub mod Worker
mod Weekly
pub use Stores.*
pub mod Reach
