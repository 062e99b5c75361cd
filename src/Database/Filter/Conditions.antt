-- ===== src/Database/Filter/Conditions.antt =====
-- When a filter of `Build` in pkg/database/filter.go exists, and what it selects.
use Prim.Native.Nat.{Ordering}
use cluster_registry.Prelude.{
  String, ◌==◌, ◌≡◌, refl, ◌↔◌, Bool, true, false, not, ◌&&◌, Option, none, List, [], ◌∷◌, ok,
  bind-eq-ok, if◌then◌else◌, contains, arith, All, Bool-cases, inl, inr, eq_iff,
}
use cluster_registry.Database.Api.{Expressions, Value, str, TimeFormat}
use cluster_registry.Database.Filter.{
  FilterCondition, allowed_operands, parse_field, parse_value, parse_operand, add_comparison,
  build_operand, build_step, build_from, build,
}
use cluster_registry.Database.Filter.Meaning.{
  column_is, Row, Meaning, is_eq, is_gt, is_lt, is_ge, is_le,
}

module _ {Condition Expr : Type 0} (x : Expressions Condition Expr) (m : Meaning x)
    (time : TimeFormat) where
  open m use {holds, order}

  -- The comparison that an operand stands for.
  abbrev comparison : String → Option Ordering → Bool
  comparison operand o =
      if operand == "="
      then is_eq o
      else if operand == ">="
      then is_ge o
      else if operand == ">"
      then is_gt o
      else if operand == "<="
      then is_le o
      else if operand == "<"
      then is_lt o
      else false

  abbrev condition_test : FilterCondition → Row → Bool
  condition_test c r =
      comparison c.operand (order (r (parse_field c.field)) (parse_value time c.value c.operand))

  abbrev pub all_tests : List FilterCondition → Row → Bool
  all_tests [] r = true
  all_tests (c ∷ cs) r = condition_test c r && all_tests cs r

  abbrev pub IsAllowed : FilterCondition → Type 0
  IsAllowed c = contains c.operand allowed_operands ≡ true

  add_comparison_meaning :
      (f : Condition) (field operand : String) (v : Value) (r : Row)
      → contains operand allowed_operands ≡ true
      → holds (add_comparison x time f field v operand) r
        ≡ (comparison operand (order (r field) v) && holds f r)
  unfolding add_comparison contains
  add_comparison_meaning f field operand v r h = ground (
    arith,
    h,
    m.conj_lem f (x.equal field v) r,
    m.equal_lem field v r,
    m.conj_lem f (x.greater_than_equal field v) r,
    m.greater_than_equal_lem field v r,
    m.conj_lem f (x.greater_than field v) r,
    m.greater_than_lem field v r,
    m.conj_lem f (x.less_than_equal field v) r,
    m.less_than_equal_lem field v r,
    m.conj_lem f (x.less_than field v) r,
    m.less_than_lem field v r,
    eq_iff operand "=",
    eq_iff "=" operand,
    eq_iff operand ">=",
    eq_iff ">=" operand,
    eq_iff operand ">",
    eq_iff ">" operand,
    eq_iff operand "<=",
    eq_iff "<=" operand,
    eq_iff operand "<",
    eq_iff "<" operand,
  )

  build_step_meaning :
      (f g : Condition) (c : FilterCondition) (r : Row)
      → build_step x time f c ≡ ok g
      → IsAllowed c × (holds g r ≡ (condition_test c r && holds f r))
  unfolding build_step parse_operand
  build_step_meaning f g c r h = elim (Bool-cases (contains c.operand allowed_operands)) [
    | inl p ↦
        let e : ok (
              add_comparison x time f (parse_field c.field) (parse_value time c.value c.operand)
                c.operand)
            ≡ ok g =
          rw (p, build_operand) at h in
        (
          p,
          cc (
            e,
            add_comparison_meaning f (parse_field c.field) c.operand
                (parse_value time c.value c.operand) r p,
          ),
        )
    | inr p ↦ cc (rw (p, build_operand) at h)
  ]

  build_step_of_IsAllowed :
      (f : Condition) (c : FilterCondition)
      → IsAllowed c
      → (g : Condition) × (build_step x time f c ≡ ok g)
  unfolding build_step parse_operand
  build_step_of_IsAllowed f c p = (
    add_comparison x time f (parse_field c.field) (parse_value time c.value c.operand) c.operand,
    rw (p, build_operand) refl,
  )

  build_from_meaning :
      (cs : List FilterCondition) (f g : Condition) (r : Row)
      → build_from x time f cs ≡ ok g
      → All IsAllowed cs × (holds g r ≡ (all_tests cs r && holds f r))
  unfolding build_from
  build_from_meaning [] f g r h = (tt, cc h)
  build_from_meaning (c ∷ cs) f g r h =
      let (k, first, later) = bind-eq-ok (build_step x time f c) (λ k. build_from x time k cs) h in
      let (allowed, here) = build_step_meaning f k c r first in
      let (all_allowed, there) = build_from_meaning cs k g r later in
      ((allowed, all_allowed), ground (arith, here, there))

  build_from_total :
      (cs : List FilterCondition) (f : Condition)
      → All IsAllowed cs
      → (g : Condition) × (build_from x time f cs ≡ ok g)
  unfolding build_from
  build_from_total [] f h = (f, refl)
  build_from_total (c ∷ cs) f h =
      let (g, e) = build_step_of_IsAllowed f c h.0 in
      let (k, e') = build_from_total cs g h.1 in (k, rw e e')

  -- A filter is built exactly from conditions whose operands are all allowed.
  pub build-ok_iff :
      (cs : List FilterCondition) → ((f : Condition) × (build x time cs ≡ ok f)) ↔ All IsAllowed cs
  unfolding build
  build-ok_iff cs = (
    λ h. (build_from_meaning cs (x.not_equal "status" (str "")) h.0 (λ _. none) h.1).0,
    build_from_total cs (x.not_equal "status" (str "")),
  )

  -- The filter selects the rows with a status that is not empty and that pass every condition.
  pub build_meaning :
      (cs : List FilterCondition) (f : Condition) (r : Row)
      → build x time cs ≡ ok f
      → holds f r ≡ (all_tests cs r && not (column_is x m time r "status" ""))
  unfolding build
  build_meaning cs f r h = cc (
    (build_from_meaning cs (x.not_equal "status" (str "")) f r h).1,
    m.not_equal_lem "status" (str "") r,
  )
