-- ===== src/Schedule/Completion.antt =====
-- The loop of main.c that delivers to the receiver comes to its end, with everything delivered.
use shardingsim.System.{System}
