-- ===== src/Dispatch/Backoff.antt =====
-- The delays between the attempts of a delivery.
use Prim.Native.Nat.pow
