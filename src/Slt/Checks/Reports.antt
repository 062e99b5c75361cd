-- ===== src/Slt/Checks/Reports.antt =====
-- What the checks of test/slt/checks/checks.go report.
use cluster_registry.Prelude.{
  ℕ, ◌+◌, suc, String, ◌==◌, ◌≡◌, refl, sym, ap, ◌∙◌, subst, false, Option, none, some, inl, inr,
  lookup, lookup-insert, get_or, eq_refl, arith,
}
use cluster_registry.Slt.{SltApi, Ending, ended, fatal, out_of_fuel}
use cluster_registry.Slt.Update.{TestConfig, RunResult, max_nr_of_tries, run}
use cluster_registry.Slt.Update.Confirming.{run-Ends}
use cluster_registry.Slt.Checks.{
  Process, metric_label, report, with_token, read_token, report_run, run_e2e_test,
}

abbrev status_of : Option String → ℕ
status_of none = 1
status_of (some e) = 0

abbrev failures_of : Option String → ℕ
failures_of none = 0
failures_of (some e) = 1

abbrev errors_at : {W : Type 0} → String → Process W → ℕ
errors_at label s = get_or (lookup label s.err_cnt) 0

-- Its label shows whether the check passed, and its errors are counted; all else is as it was.
pub record Reports {W : Type 0} (label : String) (e : Option String) (s s' : Process W)
    : Type 0 where
  pub status : lookup label s'.test_status ≡ some (status_of e)
  pub errors : errors_at label s' ≡ errors_at label s + failures_of e
  pub other_status :
      (k : String) → (label == k) ≡ false → lookup k s'.test_status ≡ lookup k s.test_status
  pub other_errors : (k : String) → (label == k) ≡ false → lookup k s'.err_cnt ≡ lookup k s.err_cnt
  pub token : s'.token ≡ s.token
  pub outside : s'.outside ≡ s.outside

report-Reports :
    {W : Type 0} (label : String) (e : Option String) (s : Process W)
    → Reports label e s (report label e s)
unfolding report
report-Reports label none s = record {
  status = rw (lookup-insert label label 1 s.test_status, eq_refl) refl;
  errors = omega arith;
  other_status = λ k other. rw (lookup-insert label k 1 s.test_status, other) refl;
  other_errors = λ k other. refl;
  token = refl;
  outside = refl;
}
report-Reports label (some e) s = record {
  status = rw (lookup-insert label label 0 s.test_status, eq_refl) refl;
  errors = rw (lookup-insert label label (errors_at label s + 1) s.err_cnt, eq_refl) refl;
  other_status = λ k other. rw (lookup-insert label k 0 s.test_status, other) refl;
  other_errors =
      λ k other. rw (lookup-insert label k (errors_at label s + 1) s.err_cnt, other) refl;
  token = refl;
  outside = refl;
}

module _ {W Principal : Type 0} (api : SltApi W Principal) where
  -- With one more round than tries, the test ends.
  pub run_ended :
      (config : TestConfig) (token : String) (w : W)
      → (result : RunResult) × ((run api (suc max_nr_of_tries) config token w).0 ≡ ended result)
  run_ended config token w = elim (run-Ends api config token w) [
    | inl (e, p, q) ↦ (_, ap (λ r. r.0) q)
    | inr (name, value, p, inl (i, small, good, before, q)) ↦ (_, ap (λ r. r.0) q)
    | inr (name, value, p, inr (all, q)) ↦ (_, q)
  ]

  report_run-ended :
      (s : Process W) (out : Ending RunResult × W) (result : RunResult)
      → out.0 ≡ ended result
      → report_run api s out
        ≡ (ended tt, report metric_label result.error (record s { outside = out.1 }))
  unfolding report_run
  report_run-ended s (ended r, w) result p = cc
  report_run-ended s (fatal e, w) result p = cc
  report_run-ended s (out_of_fuel, w) result p = cc

  -- Once there is a token, the end-to-end check ends; its status shows whether its run had no
  -- error, its errors are one more if it had, and the status and the errors of other checks, the
  -- token and the world behind the run are as they were.
  pub run_e2e_test-Reports :
      (second : Process W → Process W) (fuel : ℕ) (config : TestConfig) (s s1 : Process W)
      (token : String)
      → read_token second fuel s ≡ (ended token, s1)
      → (result : RunResult) × (w : W) × (run api (suc max_nr_of_tries) config token s1.outside
          ≡ (ended result, w))
        × ((run_e2e_test api second fuel config s).0 ≡ ended tt)
        × Reports metric_label result.error
            (record s1 { outside = w })
            (run_e2e_test api second fuel config s).1
  unfolding run_e2e_test
  run_e2e_test-Reports second fuel config s s1 token read =
      let (result, p) = run_ended config token s1.outside in
      let out = run api (suc max_nr_of_tries) config token s1.outside in
      let w = out.1 in
      let whole : run_e2e_test api second fuel config s ≡ report_run api s1 out =
        ap
          (with_token
            λ token s1. report_run api s1 (run api (suc max_nr_of_tries) config token s1.outside))
          read in
      let done = report_run-ended s1 out result p in
      (
        result,
        w,
        ap (λ r. (r, w)) p,
        ap (λ r. r.0) (whole ∙ done),
        subst (λ s'. Reports metric_label result.error (record s1 { outside = w }) s')
            (sym (ap (λ r. r.1) (whole ∙ done)))
            (report-Reports metric_label result.error (record s1 { outside = w })),
      )
