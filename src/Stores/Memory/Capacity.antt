-- ===== src/Stores/Memory/Capacity.antt =====
-- Capacities that `New` accepts and cuts to 32 bits.
use go_memoize.Stored.{Stored}
use go_memoize.Stores.Sizes.{Sizes}
