-- ===== src/Processes.antt =====
-- How the processes start: the `main` functions of cmd/client/client.go, cmd/sync/manager/manager.go
-- and cmd/apiserver/apiserver.go. This file has what they share.
pub mod Queues
pub mod Client
pub mod Server
use cluster_registry.Prelude.{
  String, ◌≡◌, refl, Result, ok, err, Act, Outcome, returned, panicked, out_of_fuel,
}

-- Where a process is: behind a step, at its end with a message, or in a panic.
pub data Progress {ℓ} (A : Type ℓ) : Type ℓ where
  going : A → Progress A
  exited : String → Progress A
  crashed : Progress A

-- A step of a process, which moves the world.
abbrev pub Start : Type 0 → Type 0 → Type 0
Start W A = Act W (Progress A)

abbrev resume : {W A B : Type 0} → Progress A × W → (A → Start W B) → Progress B × W
resume (going a, w) next = next a w
resume (exited e, w) next = (exited e, w)
resume (crashed, w) next = (crashed, w)

infixl 5 ◌>>=◌ ◌>>◌
abbrev pub ◌>>=◌ : {W A B : Type 0} → Start W A → (A → Start W B) → Start W B
◌>>=◌ first next w = resume (first w) next

abbrev pub ◌>>◌ : {W B : Type 0} → Start W (Unit {0}) → Start W B → Start W B
first >> next = first >>= λ u. next

-- An error ends the process.
abbrev pub or_exit {ℓ} : {A : Type ℓ} → Result A → Progress A
or_exit (ok a) = going a
or_exit (err e) = exited e

abbrev pub checked : {W A : Type 0} → Act W (Result A) → Start W A
checked call w = let (r, w') = call w in (or_exit r, w')

abbrev outcome_or_exit {ℓ} : {A : Type ℓ} → Outcome (Result A) → Progress A
outcome_or_exit (returned r) = or_exit r
outcome_or_exit panicked = crashed
outcome_or_exit out_of_fuel = crashed

abbrev pub checked_outcome : {W A : Type 0} → Act W (Outcome (Result A)) → Start W A
checked_outcome call w = let (r, w') = call w in (outcome_or_exit r, w')

abbrev pub pure_step : {W A : Type 0} → Progress A → Start W A
pure_step r w = (r, w)

abbrev pub done : {W : Type 0} → (W → W) → Start W (Unit {0})
done effect w = (going tt, effect w)

-- A step that is followed by the same from what it gives.
pub resume-cong :
    {W A B : Type 0} (out : Progress A × W) (f g : A → Start W B)
    → ((a : A) (w : W) → out ≡ (going a, w) → f a w ≡ g a w)
    → resume out f ≡ resume out g
resume-cong (going a, w) f g same = same a w refl
resume-cong (exited e, w) f g same = refl
resume-cong (crashed, w) f g same = refl
