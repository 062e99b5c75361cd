-- ===== src/Database/Filter/Meaning.antt =====
-- What the filters select, under the documented meaning of the expression builder's operations.
use Prim.Native.Nat.{Ordering}
use cluster_registry.Prelude.{
  String, ◌==◌, ◌≡◌, refl, ◌↔◌, ◌⊎◌, Bool, true, false, not, ◌&&◌, Option, some, Result, ok, err,
  if◌then◌else◌, arith, ℤ, Bool-cases, Result-cases, inl, inr, eq_iff,
}
use cluster_registry.Database.Api.{Expressions, Value, str, num, TimeFormat, unix}
use cluster_registry.Database.Filter.{status_filter, and_column, since_time, and_since, list_filter}

-- The columns of a row.
abbrev pub Row : Type 0
Row = String → Option Value

abbrev pub is_eq : Option Ordering → Bool
is_eq (some Ordering.eq) = true
is_eq _ = false

abbrev pub is_gt : Option Ordering → Bool
is_gt (some Ordering.gt) = true
is_gt _ = false

abbrev pub is_lt : Option Ordering → Bool
is_lt (some Ordering.lt) = true
is_lt _ = false

abbrev pub is_ge : Option Ordering → Bool
is_ge (some Ordering.eq) = true
is_ge (some Ordering.gt) = true
is_ge _ = false

abbrev pub is_le : Option Ordering → Bool
is_le (some Ordering.eq) = true
is_le (some Ordering.lt) = true
is_le _ = false

-- DynamoDB's reading of a condition. `order` compares a column with a value, and is `none` where the
-- column is missing or of another type; only then, or where they differ, does `<>` hold.
pub record Meaning {Condition Expr : Type 0} (x : Expressions Condition Expr) : Type 0 where
  pub holds : Condition → Row → Bool
  pub order : Option Value → Value → Option Ordering
  pub equal_lem : (n : String) (v : Value) (r : Row) → holds (x.equal n v) r ≡ is_eq (order (r n) v)
  pub not_equal_lem :
      (n : String) (v : Value) (r : Row) → holds (x.not_equal n v) r ≡ not (is_eq (order (r n) v))
  pub greater_than_equal_lem :
      (n : String) (v : Value) (r : Row)
      → holds (x.greater_than_equal n v) r ≡ is_ge (order (r n) v)
  pub greater_than_lem :
      (n : String) (v : Value) (r : Row) → holds (x.greater_than n v) r ≡ is_gt (order (r n) v)
  pub less_than_equal_lem :
      (n : String) (v : Value) (r : Row) → holds (x.less_than_equal n v) r ≡ is_le (order (r n) v)
  pub less_than_lem :
      (n : String) (v : Value) (r : Row) → holds (x.less_than n v) r ≡ is_lt (order (r n) v)
  pub conj_lem : (a b : Condition) (r : Row) → holds (x.conj a b) r ≡ (holds a r && holds b r)

module _ {Condition Expr : Type 0} (x : Expressions Condition Expr) (m : Meaning x)
    (time : TimeFormat) where
  open m use {holds, order}

  abbrev pub column_is : Row → String → String → Bool
  column_is r column value = is_eq (order (r column) (str value))

  -- An empty parameter of `ListClusters` asks for nothing, except that an empty status leaves the
  -- deleted clusters out.
  abbrev pub status_test : String → Row → Bool
  status_test status r =
      if status == "" then not (column_is r "status" "Deleted") else column_is r "status" status

  abbrev pub column_test : String → String → Row → Bool
  column_test column value r = if value == "" then true else column_is r column value

  abbrev is_since : Row → Result ℤ → Bool
  is_since r (ok t) = is_ge (order (r "lastUpdatedUnix") (num (unix t)))
  is_since r (err e) = false

  abbrev pub since_test : String → Row → Bool
  since_test last_updated r =
      if last_updated == "" then true else is_since r (time.parse last_updated)

  status_filter_meaning :
      (s : String) (r : Row) → holds (status_filter x time s) r ≡ status_test s r
  unfolding status_filter
  status_filter_meaning s r = elim (Bool-cases (s == "")) [
    | inl p ↦ rw p (m.not_equal_lem "status" (str "Deleted") r)
    | inr p ↦ rw p (m.equal_lem "status" (str s) r)
  ]

  and_column_meaning :
      (column value : String) (f : Condition) (r : Row)
      → holds (and_column x time column value f) r ≡ (column_test column value r && holds f r)
  unfolding and_column
  and_column_meaning column value f r = elim (Bool-cases (value == "")) [
    | inl p ↦ rw p refl
    | inr p ↦ rw p (
        ground
          (arith, m.conj_lem f (x.equal column (str value)) r, m.equal_lem column (str value) r))
  ]

  and_since_meaning :
      (u : String) (f g : Condition) (r : Row)
      → and_since x time u f ≡ ok g
      → holds g r ≡ (since_test u r && holds f r)
  unfolding and_since since_time
  and_since_meaning u f g r h = elim (Bool-cases (u == "")) [
    | inl p ↦ rw p (cc (rw (p, and_since) at h))
    | inr p ↦ elim (Result-cases (time.parse u)) [
      | inl (t, q) ↦
          let e : ok (x.conj f (x.greater_than_equal "lastUpdatedUnix" (num (unix t)))) ≡ ok g =
            rw (p, q, and_since) at h in
          ground (
            arith,
            p,
            q,
            e,
            m.conj_lem f (x.greater_than_equal "lastUpdatedUnix" (num (unix t))) r,
            m.greater_than_equal_lem "lastUpdatedUnix" (num (unix t)) r,
          )
      | inr (e, q) ↦ ground (arith, p, q, h)
    ]
  ]

  -- What `ListClusters` asks of a row: the wanted status, or any but Deleted where none is named,
  -- and, of the other parameters that are not empty, the region, the environment and an update at
  -- that time or later.
  pub list_filter_meaning :
      (region environment status last_updated : String) (f : Condition) (r : Row)
      → list_filter x time region environment status last_updated ≡ ok f
      → holds f r ≡ (
          since_test last_updated r
          && (column_test "environment" environment r
              && (column_test "region" region r && status_test status r)))
  unfolding list_filter
  list_filter_meaning region environment status last_updated f r h = cc (
    and_since_meaning last_updated _ f r h,
    and_column_meaning "environment" environment
        (and_column x time "region" region (status_filter x time status)) r,
    and_column_meaning "region" region (status_filter x time status) r,
    status_filter_meaning status r,
  )

  abbrev since_filter : Condition → ℤ → Condition
  since_filter f t = x.conj f (x.greater_than_equal "lastUpdatedUnix" (num (unix t)))

  and_since-ok_iff :
      (u : String) (f : Condition)
      → ((g : Condition) × (and_since x time u f ≡ ok g))
        ↔ ((u ≡ "") ⊎ ((t : ℤ) × (time.parse u ≡ ok t)))
  unfolding and_since since_time
  and_since-ok_iff u f = elim (Bool-cases (u == "")) [
    | inl p ↦ (λ h. inl ((eq_iff u "").0 p), λ h. (f, rw p refl))
    | inr p ↦ elim (Result-cases (time.parse u)) [
      | inl (t, q) ↦ (λ h. inr (t, q), λ h. (since_filter f t, rw (p, q, since_time) refl))
      | inr (e, q) ↦ (λ h. ground (arith, p, q, h.1), λ h. ground (arith, p, q, h, eq_iff u ""))
    ]
  ]

  -- ListClusters refuses its parameters exactly when a time is given that cannot be parsed.
  list_filter-ok_iff :
      (region environment status last_updated : String)
      → ((f : Condition) × (list_filter x time region environment status last_updated ≡ ok f))
        ↔ ((last_updated ≡ "") ⊎ ((t : ℤ) × (time.parse last_updated ≡ ok t)))
  unfolding list_filter
  list_filter-ok_iff region environment status last_updated = and_since-ok_iff last_updated _
