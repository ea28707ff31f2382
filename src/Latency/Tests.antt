-- ===== src/Latency/Tests.antt =====
-- Tests and instances for keyhub/llm/latency_stats.py.
use key_hub.Common.{◌≡◌, refl, [], ◌∷◌}
use key_hub.Latency.{put_in_order, sorted, pick_three, compute_pct}

middle : compute_pct (30 ∷ 10 ∷ 20 ∷ 40 ∷ []) ≡ record { p50_doubled = 50; p95 = 40; p99 = 40 }
unfolding compute_pct pick_three sorted put_in_order
middle = refl
