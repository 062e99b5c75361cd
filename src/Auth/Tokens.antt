-- ===== src/Auth/Tokens.antt =====
-- The headers that `extractToken` of pkg/auth/auth.go takes.
use Prim.Native.Char.{Char}
use Prim.Native.String.{[] as empty_text, ◌∷◌ as prefixed}
use cluster_registry.Prelude.{
  ℕ, zero, suc, ◌+◌, ◌<◌, String, eq_iff, ◌≡◌, refl, ap, ◌∙◌, ◌≢◌, ◌↔◌, inl, inr, Bool-cases, ok,
  arith, ltb,
}
use cluster_registry.Auth.{extract_token, text_length, text_take, text_drop}

-- A text of more characters than `suc n` goes on behind the first `n` with one and others.
text_split :
    (n : ℕ) (s : String)
    → suc n < text_length s
    → (c : Char) × (text_drop n s ≡ prefixed c (text_drop (suc n) s)) × (text_drop (suc n) s ≢ "")
text_split n empty_text h = absurd (omega arith)
text_split zero (prefixed c empty_text) h = absurd (omega arith)
text_split zero (prefixed c (prefixed b s)) h = (c, refl, λ e. cc)
text_split (suc n) (prefixed c s) h = text_split n s (omega (arith, h))

-- What follows from such a split.
text_behind :
    (n : ℕ) (s : String) {c : Char} {token : String}
    → text_drop n s ≡ prefixed c token
    → (text_drop (suc n) s ≡ token) × (text_length s ≡ n + suc (text_length token))
text_behind zero empty_text e = cc
text_behind zero (prefixed c s) {c = c'} {token = token} e =
    let same : s ≡ token = ap (text_drop 1) e in (same, omega (arith, ap text_length same))
text_behind (suc n) empty_text e = cc
text_behind (suc n) (prefixed c s) e =
    let (behind, long) = text_behind n s e in (behind, omega (arith, long))

text_positive : (s : String) → s ≢ "" → 0 < text_length s
text_positive empty_text h = absurd (h refl)
text_positive (prefixed c s) h = omega arith

-- A token is taken exactly from the scheme, one character whatever it is, and the token, which is
-- not empty.
extract_token-ok_iff :
    (authorization token : String)
    → (extract_token authorization ≡ ok token) ↔ (
        (text_take 6 authorization ≡ "Bearer")
        × ((c : Char) × (text_drop 6 authorization ≡ prefixed c token))
        × (token ≢ ""))
unfolding extract_token
extract_token-ok_iff authorization token = (
  λ e. elim (Bool-cases (ltb 7 (text_length authorization))) [
    | inr p ↦ ground (arith, p, e)
    | inl p ↦
        let (c, split, rest) = text_split 6 authorization (ground (arith, p)) in
        let same : text_drop 7 authorization ≡ token = ground (arith, p, e) in
        (
          ground (arith, p, e, eq_iff (text_take 6 authorization) "Bearer"),
          (c, split ∙ ap (prefixed c) same),
          λ h. rest (same ∙ h),
        )
  ],
  λ h.
      let (behind, long) = text_behind 6 authorization h.1.1 in
      ground (
        arith,
        h.0,
        behind,
        long,
        text_positive token h.2,
        eq_iff (text_take 6 authorization) "Bearer",
      ),
)
