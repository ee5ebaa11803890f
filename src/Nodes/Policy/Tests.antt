-- ===== src/Nodes/Policy/Tests.antt =====
-- The policy on concrete numbers.
use hellodac.Prelude.{◌≡◌, refl, true, false}
use hellodac.Nodes.Policy.{backoff_delay_ms, decide_after_exit, to_cold, to_restart, to_offline}

third_delay : backoff_delay_ms 3 1000 30000 ≡ 4000
unfolding backoff_delay_ms
third_delay = refl

capped_delay : backoff_delay_ms 9 1000 30000 ≡ 30000
unfolding backoff_delay_ms
capped_delay = refl

last_attempt : decide_after_exit 3 3 false ≡ to_offline
unfolding decide_after_exit
last_attempt = refl

by_hand : decide_after_exit 3 3 true ≡ to_cold
unfolding decide_after_exit
by_hand = refl

retry_left : decide_after_exit 2 3 false ≡ to_restart
unfolding decide_after_exit
retry_left = refl
