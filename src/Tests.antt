-- ===== src/Tests.antt =====
-- Runs of the definitions on concrete inputs, and each theorem with hypotheses at an input.
pub mod Rendering
pub mod Paging
pub mod Seeking
pub mod Writing
pub mod Listing
pub mod Compiling
pub mod Racing
pub mod Cursors
pub mod Walking
pub mod Binding
pub mod Filling
pub mod Tokens
pub mod Sorting
pub mod Filters
pub mod Carrying
pub mod Serving
