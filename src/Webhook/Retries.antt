-- ===== src/Webhook/Retries.antt =====
-- When `retry` of pkg/client/webhook/webhook.go succeeds.
use cluster_registry.Prelude.{
  ℕ, zero, suc, ◌<◌, ◌≡◌, refl, String, Option, none, some, inl, inr, ◌↔◌, Result, ok, Act,
  Result-cases, arith,
}
use cluster_registry.Webhook.{retry, retry_loop}

module _ {W : Type 0} (pause : W → W) (f : Act W (Result (Unit {0}))) where
  -- The world in which an attempt is made, when those before it failed.
  abbrev pub before_attempt : ℕ → W → W
  before_attempt zero w = w
  before_attempt (suc i) w = before_attempt i (pause (f w).1)

  -- A loop that succeeds ends with an attempt that does.
  pub retry_loop-ok :
      (attempts left : ℕ) (last : Option String) (w : W)
      → (retry_loop attempts left pause f last w).0 ≡ ok tt
      → (i : ℕ) × (i < left)
        × ((f (before_attempt i w)).0 ≡ ok tt)
        × ((retry_loop attempts left pause f last w).1 ≡ (f (before_attempt i w)).1)
  unfolding retry_loop
  retry_loop-ok attempts zero last w e = cc
  retry_loop-ok attempts (suc left) last w e = elim (Result-cases (f w).0) [
    | inl (u, p) ↦ (zero, omega arith, p, rw (p, retry_loop) refl)
    | inr (why, p) ↦
        let (i, small, good, world) =
          retry_loop-ok attempts left (some why) (pause (f w).1) (rw (p, retry_loop) at e) in
        (suc i, omega (arith, small), good, rw (p, retry_loop) world)
  ]

  -- One attempt that succeeds is enough.
  retry_loop-enough :
      (attempts left : ℕ) (last : Option String) (w : W) (i : ℕ)
      → i < left
      → (f (before_attempt i w)).0 ≡ ok tt
      → (retry_loop attempts left pause f last w).0 ≡ ok tt
  unfolding retry_loop
  retry_loop-enough attempts zero last w i small good = absurd (omega arith)
  retry_loop-enough attempts (suc left) last w zero small good = rw (good, retry_loop) refl
  retry_loop-enough attempts (suc left) last w (suc i) small good = elim (Result-cases (f w).0) [
    | inl (u, p) ↦ rw (p, retry_loop) refl
    | inr (why, p) ↦
        rw (p, retry_loop)
          (retry_loop-enough attempts left (some why) (pause (f w).1) i (omega (arith, small)) good)
  ]

  -- A call that is retried succeeds exactly if one of that many attempts does, each made after the
  -- pause that follows the one before.
  pub retry-ok_iff :
      (attempts : ℕ) (w : W)
      → (retry pause f attempts w).0 ≡ ok tt
        ↔ (i : ℕ) × (i < attempts) × ((f (before_attempt i w)).0 ≡ ok tt)
  unfolding retry
  retry-ok_iff attempts w = (
    λ h. let (i, small, good, world) = retry_loop-ok attempts attempts none w h in (i, small, good),
    λ h. retry_loop-enough attempts attempts none w h.0 h.1 h.2,
  )
