-- ===== src/Tests.antt =====
-- Runs of the model at concrete inputs.
mod Access
mod Cache
mod Chain
mod Engine
mod Hash
mod Memoize
mod Setting
mod Single
mod Memory
mod Sharded
mod Metrics
mod Loader
mod Background
mod Local
mod Redis
mod Clock
