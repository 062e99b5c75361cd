-- ===== src/Slt.antt =====
-- test/slt: the service level tests, a process that checks a deployed registry from outside. This
-- file has what its parts share: what the process calls, and how its functions end.
pub mod Requests
pub mod Update
pub mod Checks
use cluster_registry.Prelude.{
  ℕ, String, ◌<>◌, ◌≡◌, refl, inl, inr, Option, List, Result, ok, err, Act, Result-cases,
}
use cluster_registry.Registry.Cluster.{ClusterSpec, Cluster}

-- How a function ends: it returns, it ends the process with a message (`Fatalf`), or the fuel of the
-- model is used up.
pub data Ending {ℓ} (A : Type ℓ) : Type ℓ where
  ended : A → Ending A
  fatal : String → Ending A
  out_of_fuel : Ending A

-- What follows a call is done only if it returns.
abbrev pub then_end {ℓ κ} : {A : Type ℓ} {B : Type κ} → Ending A → (A → Ending B) → Ending B
then_end (ended a) f = f a
then_end (fatal e) f = fatal e
then_end out_of_fuel f = out_of_fuel

-- `ClusterList` of test/slt/helpers
pub record ClusterItems : Type 0 where
  pub items : List ClusterSpec
  pub items_count : ℕ

-- An answer to an HTTP request, with what the read of its body gives.
pub record Reply : Type 0 where
  pub code : ℕ
  pub body : Result String

-- What the process calls: the environment; the HTTP client, with the check of a URL and the
-- decoders; the API of the Kubernetes cluster, whose `list_raw` gives its response beside an error;
-- the codec of the resource; the clock; and the identity provider.
pub record SltApi (W Principal : Type 0) : Type 0 where
  pub env : String → Option String
  pub new_request : String → Result (Unit {0})
  pub do_get : String → String → Act W (Result Reply)
  pub decode_spec : String → Result ClusterSpec
  pub decode_items : String → Result ClusterItems
  pub get_config : Act W (Result (Unit {0}))
  pub new_client : Act W (Result (Unit {0}))
  pub list_raw : String → Act W (String × Option String)
  pub decode_clusters : String → Result (List Cluster)
  pub encode_cluster : Cluster → Result String
  pub patch : String → String → String → Act W (Result (Unit {0}))
  pub sleep : ℕ → W → W
  pub service_principal : String → String → String → Result Principal
  pub refresh_exchange : String → Principal → Act W (Result String)

-- The steps of a function that moves the world: what follows a call is done only if it gave no error.
infixl 5 ◌>>=◌ ◌>>◌
abbrev pub ◌>>=◌ : {W A B : Type 0} → Act W (Result A) → (A → Act W (Result B)) → Act W (Result B)
◌>>=◌ first next w = let (r, w') = first w in elim r [ err e ↦ (err e, w') | ok a ↦ next a w' ]

abbrev pub ◌>>◌ : {W B : Type 0} → Act W (Result (Unit {0})) → Act W (Result B) → Act W (Result B)
first >> next = first >>= λ u. next

abbrev pub explained {ℓ} : {A : Type ℓ} → String → Result A → Result A
explained what (err e) = err (what <> e)
explained what (ok a) = ok a

-- `fmt.Errorf` on the error of a call.
abbrev pub explaining : {W A : Type 0} → String → Act W (Result A) → Act W (Result A)
explaining what call w = let (r, w') = call w in (explained what r, w')

-- A call that does not move the world.
abbrev pub pure_call : {W A : Type 0} → Result A → Act W (Result A)
pure_call r w = (r, w)

-- A chain of calls gives a value only if each of them does, and is then its last call.
pub act_bind-eq-ok :
    {W A B : Type 0} (first : Act W (Result A)) (next : A → Act W (Result B)) (w : W) {b : B}
    → ((first >>= next) w).0 ≡ ok b
    → (a : A) × ((first w).0 ≡ ok a)
      × ((next a (first w).1).0 ≡ ok b)
      × ((first >>= next) w ≡ next a (first w).1)
act_bind-eq-ok first next w e = elim (Result-cases (first w).0) [
  | inl (a, p) ↦ (a, p, rw (p, ◌>>=◌) at e, rw (p, ◌>>=◌) refl)
  | inr (why, p) ↦ cc (rw (p, ◌>>=◌) at e)
]
