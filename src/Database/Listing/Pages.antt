-- ===== src/Database/Listing/Pages.antt =====
-- The loop over the pages of a query or of a scan fetches all of them, and the list operations
-- give the slice of the rows that their filter selects.
use cluster_registry.Prelude.{
  ℕ, zero, suc, ◌≤◌, ◌≡◌, refl, ap, ◌∙◌, String, Bool, none, List, [], ◌∷◌, ◌++◌, some, Result, ok,
  Act, returned, if◌then◌else◌, arith,
}
use mathlib.Core.List.{append_assoc, append-nil}
use cluster_registry.Registry.Cluster.{Cluster}
use cluster_registry.Database.Api.{Db, ClusterDb, Page, PageInput, egress_target}
use cluster_registry.Database.Listing.{add_items, fetch_pages}

-- `filter`, on a Boolean test.
abbrev pub select {ℓ} : {A : Type ℓ} → (A → Bool) → List A → List A
select p [] = []
select p (x ∷ xs) = if p x then x ∷ select p xs else select p xs

pub select_ext {ℓ} :
    {A : Type ℓ} (p q : A → Bool) (xs : List A) → ((x : A) → p x ≡ q x) → select p xs ≡ select q xs
select_ext p q [] h = refl
select_ext p q (x ∷ xs) h = ground (arith, h x, select_ext p q xs h)

module _ {W Item Key Condition Expr : Type 0} (d : Db W Item Key Condition Expr) where
  -- Every item unmarshals to a row that holds a cluster, and these are the clusters.
  abbrev pub Decodes : List Item → List Cluster → Type 0
  Decodes [] cs = cs ≡ []
  Decodes (i ∷ items) cs =
      (row : ClusterDb) × (c : Cluster) × (rest : List Cluster) × (d.db_api.unmarshal_map i
        ≡ ok row)
      × (row.cluster ≡ some c)
      × Decodes items rest
      × (cs ≡ c ∷ rest)

  add_items-Decodes :
      (items : List Item) (acc cs : List Cluster)
      → Decodes items cs
      → add_items d acc items ≡ returned (ok (acc ++ cs))
  unfolding add_items
  add_items-Decodes [] acc cs h = rw (h, append-nil)
  add_items-Decodes (i ∷ items) acc cs h =
      let (row, c, rest, decoded, present, later, e) = h in
      rw (decoded, add_items, present, e)
        (add_items-Decodes items (acc ++ c ∷ []) rest later ∙ rw append_assoc refl)

  Decodes-split :
      (xs ys : List Item) (cs : List Cluster)
      → Decodes (xs ++ ys) cs
      → (xcs ycs : List Cluster) × Decodes xs xcs × Decodes ys ycs × (cs ≡ xcs ++ ycs)
  Decodes-split [] ys cs h = ([], cs, refl, h, refl)
  Decodes-split (x ∷ xs) ys cs h =
      let (row, c, rest, decoded, present, later, e) = h in
      let (xcs, ycs, ha, hb, e') = Decodes-split xs ys rest later in
      (c ∷ xcs, ycs, (row, c, xcs, decoded, present, ha, refl), hb, e ∙ ap (λ l. c ∷ l) e')

  module _ (fetch : PageInput Key Expr → Act W (Result (Page Item Key))) where
    -- The service answers `n` requests, each for the page behind the last; the pages hold these
    -- items, in this order, and the last one has no key to go on from.
    pub data Answers : ℕ → PageInput Key Expr → W → List Item → W → Type 0 where
      last :
          {n : ℕ} {input : PageInput Key Expr} {w w1 w2 : W} {page : Page Item Key}
          {items : List Item}
          → fetch input w ≡ (ok page, w1)
          → page.last_evaluated_key ≡ none
          → items ≡ page.items
          → w2 ≡ d.metrics.record_egress egress_target w1
          → n ≡ 1
          → Answers n input w items w2
      more :
          {m n : ℕ} {input : PageInput Key Expr} {w w1 w2 : W} {page : Page Item Key} {key : Key}
          {rest items : List Item}
          → fetch input w ≡ (ok page, w1)
          → page.last_evaluated_key ≡ some key
          → Answers m
              (record input { exclusive_start_key = some key })
              (d.metrics.record_egress egress_target w1)
              rest
              w2
          → items ≡ page.items ++ rest
          → n ≡ suc m
          → Answers n input w items w2

    -- With fuel for every page, the loop gives the clusters of all of them, in order.
    pub fetch_pages_complete :
        (message : String) (n fuel : ℕ) (input : PageInput Key Expr) (w w' : W) (items : List Item)
        (acc cs : List Cluster)
        → Answers n input w items w'
        → n ≤ fuel
        → Decodes items cs
        → fetch_pages d fetch message fuel input acc w ≡ (returned (ok (acc ++ cs)), w')
    unfolding fetch_pages
    fetch_pages_complete message n zero input w w' items acc cs (last p q e e' o) h dec =
        absurd (omega arith)
    fetch_pages_complete message n zero input w w' items acc cs (more p q a e o) h dec =
        absurd (omega arith)
    fetch_pages_complete message n (suc fuel) input w w' items acc cs (last {w1} {page} p q e e' o)
          h dec =
        let p0 : (fetch input w).0 ≡ ok page = λ i. (p i).0 in
        let p1 : (fetch input w).1 ≡ w1 = λ i. (p i).1 in
        rw (p0, fetch_pages, add_items-Decodes page.items acc cs (rw e at dec), q, p1, e') refl
    fetch_pages_complete message n (suc fuel) input w w' items acc cs
          (more {m} {w1} {page} {key} {rest} p q a e o) h dec =
        let (xcs, ycs, ha, hb, e') = Decodes-split page.items rest cs (rw e at dec) in
        let p0 : (fetch input w).0 ≡ ok page = λ i. (p i).0 in
        let p1 : (fetch input w).1 ≡ w1 = λ i. (p i).1 in
        rw (p0, fetch_pages, add_items-Decodes page.items acc xcs ha, q, p1)
          (fetch_pages_complete message m fuel (record input { exclusive_start_key = some key })
              (d.metrics.record_egress egress_target w1) w' rest (acc ++ xcs) ycs a (omega arith) hb
            ∙ rw (e', append_assoc) refl)
