-- ===== src/Runtime/WsClient/Backoff.antt =====
-- The delays between attempts.
-- The client after a number of delays were asked for.
use xianyu_manager.Runtime.WsClient.{WebSocketClient, calculate_retry_delay, reset_reconnect_count}
use xianyu_manager.Prelude.{◌*◌, ◌+◌, ◌^◌, arith, min, suc, zero, ℕ, ◌≡◌, ◌≤◌, refl}

unfoldable pub after_retries : ℕ → WebSocketClient → WebSocketClient
after_retries zero c = c
after_retries (suc k) c = after_retries k (calculate_retry_delay c).1

after_retries-count :
    (k : ℕ) (c : WebSocketClient) → (after_retries k c).reconnect_count ≡ c.reconnect_count + k
unfolding after_retries calculate_retry_delay
after_retries-count zero c = omega arith
after_retries-count (suc k) c = omega (arith, after_retries-count k (calculate_retry_delay c).1)

pow_pos : (k : ℕ) → 1 ≤ 2 ^ k
pow_pos zero = omega arith
pow_pos (suc k) = omega (arith, pow_pos k)

-- The delays that follow a connection are one second, and then each twice the one before it or 32
-- seconds, whichever is less; so none is below one second or above 32.
pub calculate_retry_delay-doubles :
    (k : ℕ) (c : WebSocketClient)
    → let delay =
        λ (n : ℕ). (calculate_retry_delay (after_retries n (reset_reconnect_count c))).0 in
      (delay 0 ≡ 1) × (delay (suc k) ≡ min (2 * delay k) 32) × (1 ≤ delay k) × (delay k ≤ 32)
unfolding calculate_retry_delay reset_reconnect_count
calculate_retry_delay-doubles k c =
    rw (count zero, count k, count (suc k))
      (refl, omega arith, omega (arith, pow_pos k), omega arith)
  where
    count : (n : ℕ) → (after_retries n (reset_reconnect_count c)).reconnect_count ≡ n
    count n = omega (arith, after_retries-count n (reset_reconnect_count c))
