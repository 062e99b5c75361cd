-- ===== src/Api/Conditions.antt =====
-- The conditions that a query can carry, from pkg/apiserver/models/filter.go to the filter of
-- pkg/database/filter.go.
use Prim.Native.String.{[] as empty_text, ◌∷◌ as prefixed}
use cluster_registry.Prelude.{
  String, ◌≡◌, refl, ◌∙◌, ◌==◌, ap, subst, ◌≢◌, true, Bool-cases, inl, inr, ◌⊎◌, Option, none, some,
  Option-cases, List, [], ◌∷◌, eq_iff, ok, Result-cases, ok_injective, contains, All, All-append,
  arith,
}
use cluster_registry.Database.Api.{Expressions, TimeFormat}
use cluster_registry.Database.Filter.{FilterCondition, allowed_operands, add_condition, build}
use cluster_registry.Database.Filter.Meaning.{Meaning}
use cluster_registry.Database.Filter.Conditions.{build-ok_iff}
use cluster_registry.Api.Texts.{behind, span}
use cluster_registry.Api.Queries.{
  first_operand, condition_of, behind_colon, is_field, match_here, find_match,
  new_filter_condition_from_query,
}
use cluster_registry.Api.Reads.{parse_conditions}

-- What is known of the operand that the expression finds.
abbrev pub IsFound : String → Type 0
IsFound o = (contains o allowed_operands ≡ true) × (o ≢ "<=")

less : IsFound "<"
unfolding contains
less = (refl, λ h. ground (arith, eq_iff "<" "<=", h))

equal : IsFound "="
unfolding contains
equal = (refl, λ h. ground (arith, eq_iff "=" "<=", h))

greater : IsFound ">"
unfolding contains
greater = (refl, λ h. ground (arith, eq_iff ">" "<=", h))

greater_equal : IsFound ">="
unfolding contains
greater_equal = (refl, λ h. ground (arith, eq_iff ">=" "<=", h))

abbrev first_of : Option (String × String) → String
first_of none = ""
first_of (some p) = p.0

-- The first alternative is taken, or else the others are tried.
first_operand-cons :
    (first : String) (others : List String) (s : String) {o rest : String}
    → first_operand (first ∷ others) s ≡ some (o, rest)
    → ((first ≡ o) × (behind first s ≢ none))
      ⊎ ((behind first s ≡ none) × (first_operand others s ≡ some (o, rest)))
unfolding first_operand
first_operand-cons first others s e = elim (Option-cases (behind first s)) [
  | inl p ↦ inr (p, rw (p, first_operand) at e)
  | inr (r, p) ↦ inl (ap first_of (rw (p, first_operand) at e), λ h. cc)
]

less_first : (s : String) → behind "<" s ≡ none → behind "<=" s ≡ none
unfolding behind
less_first empty_text e = refl
less_first (prefixed b s) e = ground (arith, e)

-- The alternative `<` stands before `<=`.
first_operand-IsFound :
    (s : String) {o rest : String} → first_operand allowed_operands s ≡ some (o, rest) → IsFound o
unfolding first_operand
first_operand-IsFound s e0 = elim (first_operand-cons "<" ("<=" ∷ "=" ∷ ">=" ∷ ">" ∷ []) s e0) [
  | inl (same, found) ↦ subst IsFound same less
  | inr (no_less, e1) ↦ elim (first_operand-cons "<=" ("=" ∷ ">=" ∷ ">" ∷ []) s e1) [
    | inl (same, found) ↦ absurd (found (less_first s no_less))
    | inr (p, e2) ↦ elim (first_operand-cons "=" (">=" ∷ ">" ∷ []) s e2) [
      | inl (same, found) ↦ subst IsFound same equal
      | inr (q, e3) ↦ elim (first_operand-cons ">=" (">" ∷ []) s e3) [
        | inl (same, found) ↦ subst IsFound same greater_equal
        | inr (r, e4) ↦ elim (first_operand-cons ">" [] s e4) [
          | inl (same, found) ↦ subst IsFound same greater
          | inr (t, e5) ↦ cc
        ]
      ]
    ]
  ]
]

abbrev operand_or : Option FilterCondition → String
operand_or none = ""
operand_or (some c) = c.operand

condition_of-IsFound :
    (field : String) (o : Option (String × String)) {c : FilterCondition}
    → condition_of field o ≡ some c
    → (operand : String) × (rest : String) × (o ≡ some (operand, rest)) × (operand ≡ c.operand)
condition_of-IsFound field none e = cc
condition_of-IsFound field (some (operand, rest)) e = (operand, rest, refl, ap operand_or e)

behind_colon-IsFound :
    (field : String) (o : Option String) {c : FilterCondition}
    → behind_colon field o ≡ some c
    → IsFound c.operand
behind_colon-IsFound field none e = cc
behind_colon-IsFound field (some s) e =
    let (operand, rest, found, same) =
      condition_of-IsFound field (first_operand allowed_operands s) e in
    subst IsFound same (first_operand-IsFound s found)

match_here-IsFound : (s : String) {c : FilterCondition} → match_here s ≡ some c → IsFound c.operand
unfolding match_here
match_here-IsFound s e = elim (Bool-cases ((span is_field s).0 == "")) [
  | inl p ↦ cc (rw (p, match_here) at e)
  | inr p ↦
      behind_colon-IsFound (span is_field s).0 (behind ":" (span is_field s).1)
        (rw (p, match_here) at e)
]

find_match-IsFound : (s : String) {c : FilterCondition} → find_match s ≡ some c → IsFound c.operand
unfolding find_match
find_match-IsFound empty_text e = cc
find_match-IsFound (prefixed b s) e = elim (Option-cases (match_here (prefixed b s))) [
  | inl p ↦ find_match-IsFound s (rw (p, find_match) at e)
  | inr (found, p) ↦ match_here-IsFound (prefixed b s) (p ∙ (rw (p, find_match) at e))
]

-- No query gives a condition with the operand <=, and each operand that one gives is allowed.
pub new_filter_condition_from_query-operand :
    (query : String) {c : FilterCondition}
    → new_filter_condition_from_query query ≡ ok c
    → IsFound c.operand
unfolding new_filter_condition_from_query
new_filter_condition_from_query-operand query e = elim (Option-cases (find_match query)) [
  | inl p ↦ cc (rw (p, new_filter_condition_from_query) at e)
  | inr (found, p) ↦
      find_match-IsFound query
        (p ∙ ap some (ok_injective (rw (p, new_filter_condition_from_query) at e)))
]

abbrev AllAllowed : List FilterCondition → Type 0
AllAllowed = All (λ c. contains c.operand allowed_operands ≡ true)

parse_conditions-AllAllowed :
    (queries : List String) (filter : List FilterCondition) {parsed : List FilterCondition}
    → AllAllowed filter
    → parse_conditions filter queries ≡ ok parsed
    → AllAllowed parsed
unfolding parse_conditions add_condition
parse_conditions-AllAllowed [] filter allowed e = subst AllAllowed (ok_injective e) allowed
parse_conditions-AllAllowed (q ∷ queries) filter allowed e =
    elim (Result-cases (new_filter_condition_from_query q)) [
      | inr (why, p) ↦ cc (rw (p, parse_conditions) at e)
      | inl (c, p) ↦
          parse_conditions-AllAllowed queries (add_condition filter c)
            (All-append _ filter (c ∷ []) allowed
              ((new_filter_condition_from_query-operand q p).0, tt))
            (rw (p, parse_conditions) at e)
    ]

-- Whatever conditions a query carries: once all of them are parsed, a filter is built from them,
-- for an expression builder that does what it documents.
build-parse_conditions :
    {Condition Expr : Type 0} (x : Expressions Condition Expr) (m : Meaning x) (time : TimeFormat)
    (queries : List String) {parsed : List FilterCondition}
    → parse_conditions [] queries ≡ ok parsed
    → (f : Condition) × (build x time parsed ≡ ok f)
build-parse_conditions x m time queries e =
    (build-ok_iff x m time _).1 (parse_conditions-AllAllowed queries [] tt e)
