-- ===== src/Slt/Update/Confirming.antt =====
-- How the end-to-end test ends: the loop of `Run` in test/slt/checks/update/update.go.
use cluster_registry.Prelude.{
  ℕ, zero, suc, ◌+◌, ◌<◌, ◌≡◌, refl, String, true, none, some, ◌⊎◌, inl, inr, Result, ok, err, Act,
  leb, le→leb, Result-cases, arith,
}
use cluster_registry.Slt.{SltApi, Ending, ended}
use cluster_registry.Slt.Update.{
  TestConfig, RunResult, max_nr_of_tries, confirm, update_crd, check_api_for_update, confirm_update,
  run,
}

module _ {W Principal : Type 0} (api : SltApi W Principal) where
  -- The world in which a check is made, where those before it failed.
  abbrev pub asked : Act W (Result (Unit {0})) → ℕ → W → W
  asked check zero w = api.sleep 30 w
  asked check (suc i) w = asked check i (check (api.sleep 30 w)).1

  abbrev Fails : Act W (Result (Unit {0})) → ℕ → W → Type 0
  Fails check i w = (e : String) × ((check (asked check i w)).0 ≡ err e)

  -- From a number of tries on: one of the checks that are left succeeds, those before it fail, and
  -- its number is returned; or all of them fail.
  abbrev pub Ends : Act W (Result (Unit {0})) → ℕ → ℕ → W → Ending RunResult × W → Type 0
  Ends check left tries w out =
      ((i : ℕ) × (i < left)
        × ((check (asked check i w)).0 ≡ ok tt)
        × ((j : ℕ) → j < i → Fails check j w)
        × (out ≡ (ended (record { tries = i + tries; error = none }), (check (asked check i w)).1)))
      ⊎ (((j : ℕ) → j < left → Fails check j w)
          × (out.0
              ≡ ended
                  (record { tries = left + tries; error = some "failed to confirm the update" })))

  Fails-suc :
      (check : Act W (Result (Unit {0}))) (w : W) (n : ℕ) (e : String)
      → (check (api.sleep 30 w)).0 ≡ err e
      → ((j : ℕ) → j < n → Fails check j (check (api.sleep 30 w)).1)
      → (j : ℕ) → j < suc n
      → Fails check j w
  Fails-suc check w n e first rest zero small = (e, first)
  Fails-suc check w n e first rest (suc j) small = rest j (omega (arith, small))

  Ends-suc :
      (check : Act W (Result (Unit {0}))) (left tries : ℕ) (w : W) (out : Ending RunResult × W)
      (e : String)
      → (check (api.sleep 30 w)).0 ≡ err e
      → Ends check left (tries + 1) (check (api.sleep 30 w)).1 out
      → Ends check (suc left) tries w out
  Ends-suc check left tries w out e first (inl (i, small, good, before, result)) =
      let number : suc i + tries ≡ i + (tries + 1) = omega arith in
      inl (suc i, omega (arith, small), good, Fails-suc check w i e first before, rw number result)
  Ends-suc check left tries w out e first (inr (all, result)) =
      let number : suc left + tries ≡ left + (tries + 1) = omega arith in
      inr (Fails-suc check w left e first all, rw number result)

  confirm-Ends :
      (check : Act W (Result (Unit {0}))) (fuel left tries : ℕ) (w : W)
      → left < fuel
      → left + tries ≡ suc max_nr_of_tries
      → Ends check left tries w (confirm api fuel tries check w)
  unfolding confirm
  confirm-Ends check zero left tries w small all = absurd (omega arith)
  confirm-Ends check (suc fuel) zero tries w small all =
      let number : tries ≡ suc max_nr_of_tries = omega (arith, all) in
      rw number (inr (λ j below. elim below [ ], refl))
  confirm-Ends check (suc fuel) (suc left) tries w small all =
      let more : leb tries max_nr_of_tries ≡ true =
        le→leb tries max_nr_of_tries (omega (arith, all)) in
      elim (Result-cases (check (api.sleep 30 w)).0) [
        | inl (u, p) ↦
            let number : 0 + tries ≡ tries = omega arith in
            inl (0, omega arith, p, λ j below. elim below [ ], rw (number, more, confirm, p) refl)
        | inr (e, p) ↦
            rw (more, confirm, p)
              (Ends-suc check left tries w _ e p (
                confirm-Ends check fuel left (tries + 1) (check (api.sleep 30 w)).1
                  (omega (arith, small)) (omega (arith, all))))
      ]

  -- With one more round than it has tries the end-to-end test always ends: with the error of the
  -- update of the resource, and no try; or, once the resource is updated, with the number of the
  -- first check that succeeds, those before it having failed, or, if all three fail, with four
  -- tries and an error.
  pub run-Ends :
      (config : TestConfig) (token : String) (w : W)
      → ((e : String) × ((update_crd api config.namespace w).0 ≡ err e)
          × (run api (suc max_nr_of_tries) config token w ≡ (
            ended (record { tries = 0; error = some e }),
            (update_crd api config.namespace w).1,
          )))
        ⊎ ((name : String) × (value : String) × ((update_crd api config.namespace w).0
              ≡ ok (name, value))
            × Ends
                (check_api_for_update api config.url name value token)
                max_nr_of_tries
                1
                (update_crd api config.namespace w).1
                (run api (suc max_nr_of_tries) config token w))
  unfolding run confirm_update
  run-Ends config token w = elim (Result-cases (update_crd api config.namespace w).0) [
    | inr (e, p) ↦ inl (e, p, rw (p, run, confirm_update) refl)
    | inl ((name, value), p) ↦ inr (
      name,
      value,
      p,
      rw (p, run, confirm_update)
          (confirm-Ends (check_api_for_update api config.url name value token) (suc max_nr_of_tries)
            max_nr_of_tries 1 (update_crd api config.namespace w).1 (omega arith) (omega arith)),
    )
  ]
