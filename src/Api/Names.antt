-- ===== src/Api/Names.antt =====
-- `GetClusterDashName` of pkg/apiserver/web/encoding.go.
use cluster_registry.Prelude.{
  String, ◌<>◌, ◌&&◌, Option, none, some, List, [], ◌∷◌, leb, eqb, if◌then◌else◌, Result, ok, err,
}
use cluster_registry.Auth.{text_length}
use cluster_registry.Api.Texts.{is_lower, is_digit, span, line_of, behind}

abbrev environments : List String
environments = "sbx" ∷ "thrash" ∷ "dev" ∷ "stage" ∷ "prod" ∷ []

-- `(sbx|thrash|dev|stage|prod)`: the environment that a text begins with, and the rest.
unfoldable pub environment_of : List String → String → Option (String × String)
environment_of [] s = none
environment_of (e ∷ es) s = elim (behind e s) [
  | none ↦ environment_of es s
  | some rest ↦ some (e, rest)
]

-- The end of the match, `(.*$)`, which no newline may follow.
unfoldable pub dash_name : String → Option (String × String) → Option String
dash_name cluster none = none
dash_name cluster (some (environment, rest)) =
    if eqb (text_length (line_of rest).1) 0
    then some (cluster <> "-" <> environment <> "-" <> rest)
    else none

-- The match of the expression. Its classes are disjoint, so each part is as long as it can be.
unfoldable pub match_short_name : String → Option String
match_short_name short_name =
    let (letters, digits_on) = span is_lower short_name in
    let (digits, environment_on) = span is_digit digits_on in
    if leb 2 (text_length letters)
      && leb (text_length letters) 10
      && leb 1 (text_length digits)
      && leb (text_length digits) 5
    then dash_name (letters <> digits) (environment_of environments environment_on)
    else none

unfoldable pub get_cluster_dash_name : String → Result String
get_cluster_dash_name short_name = elim (match_short_name short_name) [
  | none ↦ err ("Cannot convert shortName " <> short_name <> " to standard name")
  | some name ↦ ok name
]
