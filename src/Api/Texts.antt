-- ===== src/Api/Texts.antt =====
-- The pieces of regular expressions and of `strings.TrimSpace` that pkg/apiserver uses, on texts as
-- sequences of code points.
use Prim.Native.Char.{Char, code}
use Prim.Native.String.{[] as empty_text, ◌∷◌ as prefixed}
use cluster_registry.Prelude.{
  ℕ, String, Bool, true, false, ◌&&◌, ◌||◌, Option, none, some, leb, eqb, if◌then◌else◌,
}

abbrev pub is_lower : ℕ → Bool
is_lower c = leb b'a' c && leb c b'z'

abbrev pub is_upper : ℕ → Bool
is_upper c = leb b'A' c && leb c b'Z'

abbrev pub is_digit : ℕ → Bool
is_digit c = leb b'0' c && leb c b'9'

-- `(x+)y`, where no character of `y` passes the test: all leading characters that do, and the rest.
unfoldable pub span : (ℕ → Bool) → String → String × String
span test empty_text = ("", "")
span test (prefixed c s) =
    let rest = span test s in
    if test (code c) then (prefixed c rest.0, rest.1) else ("", prefixed c s)

-- `(.*)`: what stands before the first newline, and the rest.
unfoldable pub line_of : String → String × String
line_of s = span (λ c. if eqb c b'\n' then false else true) s

-- The text behind a prefix, if it has the prefix.
unfoldable pub behind : String → String → Option String
behind empty_text s = some s
behind (prefixed c p) empty_text = none
behind (prefixed c p) (prefixed b s) =
    let rest = behind p s in if eqb (code c) (code b) then rest else none

-- `unicode.IsSpace`
abbrev is_space : ℕ → Bool
is_space c =
    (leb 9 c && leb c 13)
    || eqb c 32
    || eqb c 133
    || eqb c 160
    || eqb c 5760
    || (leb 8192 c && leb c 8202)
    || eqb c 8232
    || eqb c 8233
    || eqb c 8239
    || eqb c 8287
    || eqb c 12288

abbrev onto : Char → String → String
onto c empty_text = if is_space (code c) then "" else prefixed c empty_text
onto c (prefixed b s) = prefixed c (prefixed b s)

trim_right : String → String
trim_right empty_text = ""
trim_right (prefixed c s) = onto c (trim_right s)

-- `strings.TrimSpace`
unfoldable pub trim_space : String → String
unfolding trim_right
trim_space s = trim_right (span is_space s).1
