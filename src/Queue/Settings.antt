-- ===== src/Queue/Settings.antt =====
-- The settings that `NewSQS` of pkg/sqs/sqs.go takes.
use cluster_registry.Prelude.{
  ℕ, ◌≤◌, ◌≡◌, refl, ap, pos_part, ◌≢◌, ◌⊎◌, ◌↔◌, ◌==◌, eq_iff, inl, inr, Bool-cases, false, ok, ℤ,
  pos, negsuc, arith,
}
use cluster_registry.Queue.{Config, validate_config, out_of_range}

-- A natural number up to a bound.
abbrev pub IsUpTo : ℕ → ℤ → Type 0
IsUpTo hi n = (k : ℕ) × (n ≡ pos k) × (k ≤ hi)

out_of_range-IsUpTo : (hi : ℕ) (n : ℤ) → (out_of_range n (pos hi) ≡ false) ↔ IsUpTo hi n
out_of_range-IsUpTo hi (pos k) =
    (λ e. (k, refl, ground (arith, e)), λ (j, same, small). ground (arith, ap pos_part same, small))
out_of_range-IsUpTo hi (negsuc k) = (λ e. ground (arith, e), λ (j, same, small). cc)

accepted :
    (cfg : Config)
    → cfg.aws_region ≢ ""
    → (cfg.queue_url ≢ "") ⊎ ((cfg.endpoint ≢ "") × (cfg.queue_name ≢ ""))
    → out_of_range cfg.batch_size (pos 10) ≡ false
    → out_of_range cfg.wait_seconds (pos 20) ≡ false
    → out_of_range cfg.visibility_timeout (pos 43200) ≡ false
    → validate_config cfg ≡ ok tt
unfolding validate_config
accepted cfg region (inl url) batch wait timeout =
    ground
      (arith, region, url, batch, wait, timeout, eq_iff cfg.aws_region "", eq_iff cfg.queue_url "")
accepted cfg region (inr (endpoint, name)) batch wait timeout = ground (
  arith,
  region,
  endpoint,
  name,
  batch,
  wait,
  timeout,
  eq_iff cfg.aws_region "",
  eq_iff cfg.endpoint "",
  eq_iff cfg.queue_name "",
)

-- The settings are accepted exactly if there is a region, either a URL or both an endpoint and a
-- name of the queue, and numbers from 0 to 10, to 20 and to 43200.
pub validate_config-ok_iff :
    (cfg : Config)
    → (validate_config cfg ≡ ok tt) ↔ (
        (cfg.aws_region ≢ "")
        × ((cfg.queue_url ≢ "") ⊎ ((cfg.endpoint ≢ "") × (cfg.queue_name ≢ "")))
        × IsUpTo 10 cfg.batch_size
        × IsUpTo 20 cfg.wait_seconds
        × IsUpTo 43200 cfg.visibility_timeout)
unfolding validate_config
validate_config-ok_iff cfg = (
  λ e. (
    λ h. ground (arith, e, h, eq_iff cfg.aws_region ""),
    elim (Bool-cases (cfg.queue_url == "")) [
      | inr p ↦ inl (λ h. ground (arith, p, h, eq_iff cfg.queue_url ""))
      | inl p ↦ inr (
        λ h. ground (arith, e, p, h, eq_iff cfg.endpoint ""),
        λ h. ground (arith, e, p, h, eq_iff cfg.queue_name ""),
      )
    ],
    (out_of_range-IsUpTo 10 cfg.batch_size).0 (ground (arith, e)),
    (out_of_range-IsUpTo 20 cfg.wait_seconds).0 (ground (arith, e)),
    (out_of_range-IsUpTo 43200 cfg.visibility_timeout).0 (ground (arith, e)),
  ),
  λ (region, place, batch, wait, timeout).
      accepted cfg region place ((out_of_range-IsUpTo 10 cfg.batch_size).1 batch)
        ((out_of_range-IsUpTo 20 cfg.wait_seconds).1 wait)
        ((out_of_range-IsUpTo 43200 cfg.visibility_timeout).1 timeout),
)
