-- ===== src/Memoize.antt =====
-- memoize.go and memoize_ctx.go: a function behind a cache of its results, keyed by the hash of its
-- arguments. A function is given by its arguments and by how many computations ran before, so that
-- it need not be pure.
pub mod Shared
pub mod Plain
pub mod Errors
pub mod Contexts
pub mod ContextErrors
pub mod Calls
pub mod Arguments
