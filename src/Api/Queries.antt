-- ===== src/Api/Queries.antt =====
-- `NewFilterConditionFromQuery` of pkg/apiserver/models/filter.go.
use Prim.Native.String.{[] as empty_text, ◌∷◌ as prefixed}
use cluster_registry.Prelude.{
  ℕ, String, ◌==◌, Bool, ◌||◌, Option, none, some, List, [], ◌∷◌, eqb, if◌then◌else◌, Result, ok,
  err,
}
use cluster_registry.Database.Filter.{FilterCondition, allowed_operands}
use cluster_registry.Api.Texts.{is_lower, is_upper, is_digit, span, line_of, behind, trim_space}

-- `[a-zA-Z0-9-_.]`
abbrev pub is_field : ℕ → Bool
is_field c = is_lower c || is_upper c || is_digit c || eqb c b'-' || eqb c b'_' || eqb c b'.'

-- `(<|<=|=|>=|>)`: the first of the alternatives that the text begins with, since whatever follows
-- matches `(.*)`.
unfoldable pub first_operand : List String → String → Option (String × String)
first_operand [] s = none
first_operand (o ∷ os) s = elim (behind o s) [
  | none ↦ first_operand os s
  | some rest ↦ some (o, rest)
]

abbrev pub condition_of : String → Option (String × String) → Option FilterCondition
condition_of field none = none
condition_of field (some (operand, rest)) =
    some (record { field = field; operand = operand; value = trim_space (line_of rest).0 })

abbrev pub behind_colon : String → Option String → Option FilterCondition
behind_colon field none = none
behind_colon field (some rest) = condition_of field (first_operand allowed_operands rest)

-- A match that begins at the first character: the field takes all it can, and it holds no colon.
unfoldable pub match_here : String → Option FilterCondition
match_here query =
    let (field, rest) = span is_field query in
    if field == "" then none else behind_colon field (behind ":" rest)

-- The leftmost match.
unfoldable pub find_match : String → Option FilterCondition
unfolding match_here
find_match empty_text = none
find_match (prefixed c s) =
    let later = find_match s in
    elim (match_here (prefixed c s)) [ none ↦ later | some found ↦ some found ]

unfoldable pub new_filter_condition_from_query : String → Result FilterCondition
new_filter_condition_from_query query = elim (find_match query) [
  | none ↦ err "invalid query"
  | some condition ↦ ok condition
]
