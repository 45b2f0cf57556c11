-- ===== src/Preview/Policy.antt =====
-- What the decision on a preview guarantees, for app/services/preview_policy.go.
use ponta_drive_api.Base.{◌≡◌, ◌⊎◌, ◌↔◌, Bool, true, arith}
use ponta_drive_api.Base.Int.{ℤ, ◌≤ℤ◌}
use ponta_drive_api.Preview.{
  PreviewKind, media, fetch_based, unsupported, direct, proxy, fallback, decide_preview_strategy,
  max_preview_proxy_bytes,
}

-- The server proxies exactly the fetch-based files within the size cap; the client is sent to a
-- direct URL exactly for media and for fetch-based files above the cap with a reachable public URL;
-- it falls back to a download exactly for unsupported files and for fetch-based files above the cap
-- without one.
pub decide_preview_strategy_exact :
    (kind : PreviewKind) (size : ℤ) (reachable : Bool)
    → let (strategy, _) = decide_preview_strategy kind size reachable in
      ((strategy ≡ proxy) ↔ ((kind ≡ fetch_based) × (size ≤ℤ max_preview_proxy_bytes)))
      × ((strategy ≡ direct) ↔ (
          (kind ≡ media)
          ⊎ ((kind ≡ fetch_based) × ¬ (size ≤ℤ max_preview_proxy_bytes) × (reachable ≡ true))))
      × ((strategy ≡ fallback) ↔ (
          (kind ≡ unsupported)
          ⊎ ((kind ≡ fetch_based) × ¬ (size ≤ℤ max_preview_proxy_bytes) × ¬ (reachable ≡ true))))
unfolding decide_preview_strategy
decide_preview_strategy_exact kind size reachable = ground arith
