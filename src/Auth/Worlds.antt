-- ===== src/Auth/Worlds.antt =====
-- What the check of a token does to the world: pkg/auth/auth.go.
use cluster_registry.Prelude.{String, ◌≡◌, refl, ◌∙◌, Bool-cases, inl, inr, Result, ok, err}
use cluster_registry.Auth.{Authenticator, verify, verify_again, mentions_spn}

-- Running this leaves alone what is seen of the world.
abbrev pub Keeps : {W V : Type 0} → (W → V) → (W → W) → Type 0
Keeps {W = W} view f = (w : W) → view (f w) ≡ view w

module _ {W V Token : Type 0} (view : W → V) (a : Authenticator W Token) where
  -- The verifiers and the metrics leave it alone.
  pub record AuthKeeps : Type 0 where
    pub verifier_keeps : (raw : String) → Keeps view (λ w. (a.verifier raw w).1)
    pub spn_keeps : (raw : String) → Keeps view (λ w. (a.spn_verifier raw w).1)
    pub egress_keeps : (target : String) → Keeps view (a.record_egress target)

  verify_again-Keeps :
      AuthKeeps
      → (raw : String) (first : Result Token) (w : W)
      → view (verify_again a raw (first, w)).1 ≡ view w
  unfolding verify_again
  verify_again-Keeps keeps raw (ok token) w = refl
  verify_again-Keeps keeps raw (err e) w = elim (Bool-cases (mentions_spn e)) [
    | inl p ↦ rw p (keeps.spn_keeps raw w)
    | inr p ↦ rw p refl
  ]

  pub verify-Keeps : AuthKeeps → (raw : String) → Keeps view (λ w. (verify a raw w).1)
  unfolding verify
  verify-Keeps keeps raw w =
      verify_again-Keeps keeps raw (a.verifier raw w).0 (a.verifier raw w).1
      ∙ keeps.verifier_keeps raw w
