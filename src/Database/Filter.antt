-- ===== src/Database/Filter.antt =====
-- pkg/database/filter.go, pkg/apiserver/models/filter.go, and the filter that `ListClusters` builds.
pub mod Meaning
pub mod Conditions
use text.Mathlib.Text.{starts_with}
use cluster_registry.Prelude.{
  String, ◌<>◌, ◌==◌, List, [], ◌∷◌, ◌++◌, Result, ok, err, ◌>>=◌, if◌then◌else◌, contains, ℤ,
}
use cluster_registry.Database.Api.{Expressions, Value, str, num, TimeFormat, unix}

-- `FilterCondition`
pub record FilterCondition : Type 0 where
  pub field : String
  pub operand : String
  pub value : String

abbrev pub allowed_operands : List String
allowed_operands = "<" ∷ "<=" ∷ "=" ∷ ">=" ∷ ">" ∷ []

abbrev field_prefix : String
field_prefix = "crd.spec."

-- `AddCondition`
unfoldable pub add_condition : List FilterCondition → FilterCondition → List FilterCondition
add_condition conditions c = conditions ++ c ∷ []

-- `parseField`, which never fails: the name of the column.
unfoldable pub parse_field : String → String
parse_field field = if starts_with field field_prefix then field else field_prefix <> field

unfoldable pub parse_operand : String → Result String
parse_operand operand =
    if contains operand allowed_operands
    then ok operand
    else err "invalid operand, must use one of <, <=, =, >=, >"

abbrev shown_date : TimeFormat → String → Result ℤ → Value
shown_date time value (err e) = str value
shown_date time value (ok date) = str (time.show date)

-- `parseValue`, which never fails: a value that is no date is compared as a text.
unfoldable pub parse_value : TimeFormat → String → String → Value
parse_value time value operand =
    if contains operand ("<" ∷ "<=" ∷ ">=" ∷ ">" ∷ [])
    then shown_date time value (time.parse value)
    else str value

module _ {Condition Expr : Type 0} (x : Expressions Condition Expr) (time : TimeFormat) where
  -- The `switch` of `Build`, where the filter stays as it is at any other operand.
  unfoldable pub add_comparison : Condition → String → Value → String → Condition
  add_comparison filter field value operand =
      if operand == "="
      then x.conj filter (x.equal field value)
      else if operand == ">="
      then x.conj filter (x.greater_than_equal field value)
      else if operand == ">"
      then x.conj filter (x.greater_than field value)
      else if operand == "<="
      then x.conj filter (x.less_than_equal field value)
      else if operand == "<"
      then x.conj filter (x.less_than field value)
      else filter

  build_operand : Condition → FilterCondition → Result String → Result Condition
  build_operand filter c (err e) = err ("failed to parse operand " <> c.operand <> ": " <> e)
  build_operand filter c (ok operand) =
      ok (add_comparison filter (parse_field c.field) (parse_value time c.value c.operand) operand)

  -- One round of the loop of `Build`.
  unfoldable pub build_step : Condition → FilterCondition → Result Condition
  unfolding build_operand
  build_step filter c = build_operand filter c (parse_operand c.operand)

  build_from : Condition → List FilterCondition → Result Condition
  build_from filter [] = ok filter
  build_from filter (c ∷ cs) = build_step filter c >>= λ next. build_from next cs

  -- `DynamoDBFilter.Build`
  unfoldable pub build : List FilterCondition → Result Condition
  unfolding build_from
  build conditions = build_from (x.not_equal "status" (str "")) conditions

  status_filter : String → Condition
  status_filter status =
      if status == "" then x.not_equal "status" (str "Deleted") else x.equal "status" (str status)

  and_column : String → String → Condition → Condition
  and_column column value filter =
      if value == "" then filter else x.conj filter (x.equal column (str value))

  since_time : Condition → Result ℤ → Result Condition
  since_time filter (err e) =
      err ("Error converting lastUpdated parameter to RFC3339: '" <> e <> "'.")
  since_time filter (ok t) =
      ok (x.conj filter (x.greater_than_equal "lastUpdatedUnix" (num (unix t))))

  and_since : String → Condition → Result Condition
  and_since last_updated filter =
      if last_updated == "" then ok filter else since_time filter (time.parse last_updated)

  -- The filter of `ListClusters`, from its four text parameters.
  unfoldable pub list_filter : String → String → String → String → Result Condition
  unfolding status_filter and_column and_since since_time
  list_filter region environment status last_updated =
      and_since last_updated
        (and_column "environment" environment (and_column "region" region (status_filter status)))
