-- ===== src/Database/Listing/Paging.antt =====
-- What a page of a list operation holds, when it panics, and what a client that follows the pages
-- gets.
use cluster_registry.Prelude.{
  ℕ, zero, suc, ◌+◌, ◌-◌, ◌≤◌, ◌<◌, ◌≡◌, refl, ap, ◌⊎◌, inl, inr, false, none, leb, ◌&&◌, List, [],
  ◌∷◌, ◌++◌, Outcome, returned, panicked, out_of_fuel, then_return, pos, add_int_pos, sub_int_pos,
  half_range, ltb, if◌then◌else◌, length, take, drop, length-take, length-drop, take_all,
  take-append-drop, le→leb, sym, ◌∙◌, arith, Bool-cases,
}
use cluster_registry.Registry.Cluster.{Cluster}
use cluster_registry.Database.Listing.{Listing, listing_to, end_index, paginate}

le_total : (a b : ℕ) → (a ≤ b) ⊎ (b ≤ a)
le_total a b = omega arith

-- The page at this offset, of this many clusters at most.
abbrev pub page_at : ℕ → ℕ → List Cluster → Listing
page_at offset limit xs = record {
  clusters = take limit (drop offset xs);
  count = pos (length (take limit (drop offset xs)));
  more = ltb (offset + limit) (length xs);
  error = none;
}

-- A page cut at the end of the list is the page without the cut.
take_clamped {ℓ} :
    {A : Type ℓ} (offset limit : ℕ) (xs : List A)
    → length xs ≤ offset + limit
    → take (length xs - offset) (drop offset xs) ≡ take limit (drop offset xs)
take_clamped offset limit xs h =
    take_all (length xs - offset) (drop offset xs) (omega (arith, length-drop offset xs))
    ∙ sym (take_all limit (drop offset xs) (omega (arith, length-drop offset xs)))

-- The listing that is cut between two places of the list.
abbrev cut_between : ℕ → ℕ → List Cluster → Listing
cut_between offset end xs = record {
  clusters = take (end - offset) (drop offset xs);
  count = pos (end - offset);
  more = ltb end (length xs);
  error = none;
}

listing_to_lem :
    (offset end : ℕ) (xs : List Cluster)
    → offset ≤ end
    → end ≤ length xs
    → length xs < half_range
    → listing_to (pos offset) (pos end) xs ≡ returned (cut_between offset end xs)
unfolding listing_to
listing_to_lem offset end xs h k b =
    rw (le→leb offset end h, le→leb end (length xs) k, sub_int_pos end offset (omega arith) h)
      (ground arith)

listing_to_outside :
    (offset end : ℕ) (xs : List Cluster)
    → end < offset
    → listing_to (pos offset) (pos end) xs ≡ panicked
unfolding listing_to
listing_to_outside offset end xs h = ground arith

module _ (offset limit n : ℕ) (fits : offset + limit < half_range) where
  end_index_cut : n ≤ offset + limit → end_index (pos offset) (pos limit) (pos n) ≡ pos n
  unfolding end_index
  end_index_cut h = rw (add_int_pos offset limit fits) (ground arith)

  end_index_whole :
      offset + limit ≤ n → end_index (pos offset) (pos limit) (pos n) ≡ pos (offset + limit)
  unfolding end_index
  end_index_whole h = rw (add_int_pos offset limit fits) (ground arith)

cut_short :
    (offset limit : ℕ) (xs : List Cluster)
    → length xs ≤ offset + limit
    → offset ≤ length xs
    → cut_between offset (length xs) xs ≡ page_at offset limit xs
cut_short offset limit xs h k =
    let count : length (take limit (drop offset xs)) ≡ length xs - offset =
      omega (arith, length-take limit (drop offset xs), length-drop offset xs) in
    rw (take_clamped offset limit xs h, count) (ground arith)

cut_whole :
    (offset limit : ℕ) (xs : List Cluster)
    → offset + limit ≤ length xs
    → cut_between offset (offset + limit) xs ≡ page_at offset limit xs
cut_whole offset limit xs h =
    let count : length (take limit (drop offset xs)) ≡ limit =
      omega (arith, length-take limit (drop offset xs), length-drop offset xs) in
    let width : offset + limit - offset ≡ limit = omega arith in rw (width, count) refl

module _ (offset limit : ℕ) (xs : List Cluster) (fits : offset + limit < half_range)
    (fits_length : length xs < half_range) where
  -- Within the list, and below the bounds of 64-bit sums, a page is exactly the clusters from the
  -- offset on, as many as the limit or fewer at the end; its count is their number, and more says
  -- whether clusters are left behind them.
  pub paginate_page :
      offset ≤ length xs → paginate (pos offset) (pos limit) xs ≡ returned (page_at offset limit xs)
  unfolding paginate
  paginate_page h = elim (le_total (offset + limit) (length xs)) [
    | inl whole ↦ rw (end_index_whole offset limit (length xs) fits whole) (
        listing_to_lem offset (offset + limit) xs (omega arith) whole fits_length
        ∙ ap returned (cut_whole offset limit xs whole))
    | inr short ↦ rw (end_index_cut offset limit (length xs) fits short) (
        listing_to_lem offset (length xs) xs h (omega arith) fits_length
        ∙ ap returned (cut_short offset limit xs short h))
  ]

  -- An offset behind the end of the list panics, below the bounds of 64-bit sums.
  pub paginate-panicked : length xs < offset → paginate (pos offset) (pos limit) xs ≡ panicked
  unfolding paginate
  paginate-panicked h =
      rw (end_index_cut offset limit (length xs) fits (omega arith))
        (listing_to_outside offset (length xs) xs h)

-- A client that asks for page after page, each `limit` behind the last, while `more` is set, and
-- joins what it gets.
pub walk : ℕ → ℕ → ℕ → List Cluster → Outcome (List Cluster)
walk zero offset limit xs = out_of_fuel
walk (suc fuel) offset limit xs = then_return (paginate (pos offset) (pos limit) xs) λ page.
    let rest = walk fuel (offset + limit) limit xs in
    if page.more
    then then_return rest (λ later. returned (page.clusters ++ later))
    else returned page.clusters

take_nil {ℓ} : {A : Type ℓ} (n : ℕ) → ◌≡◌ {A = List A} (take n []) []
take_nil zero = refl
take_nil (suc n) = refl

drop_more {ℓ} :
    {A : Type ℓ} (a b : ℕ) (xs : List A) → take b (drop a xs) ++ drop (a + b) xs ≡ drop a xs
drop_more zero b xs = let e : 0 + b ≡ b = omega arith in rw e (take-append-drop b xs)
drop_more (suc a) b [] = let e : suc a + b ≡ suc (a + b) = omega arith in rw e (rw (take_nil b))
drop_more (suc a) b (x ∷ xs) =
    let e : suc a + b ≡ suc (a + b) = omega arith in rw e (drop_more a b xs)

leftover :
    (offset limit : ℕ) (xs : List Cluster)
    → ltb (offset + limit) (length xs) ≡ false
    → length (drop offset xs) ≤ limit
leftover offset limit xs h =
    let k : length xs ≤ offset + limit = ground arith in omega (arith, length-drop offset xs)

-- A client that asks for page after page with a positive limit, while more is set, gets the whole
-- list from its offset on, no cluster left out and none twice, within as many requests as there are
-- clusters behind the offset and one.
pub walk_total :
    (fuel offset limit : ℕ) (xs : List Cluster)
    → 0 < limit
    → length xs + limit < half_range
    → offset ≤ length xs
    → length xs - offset < fuel
    → walk fuel offset limit xs ≡ returned (drop offset xs)
unfolding walk
walk_total zero offset limit xs pos_limit fits inside fuel_left = absurd (omega arith)
walk_total (suc fuel) offset limit xs pos_limit fits inside fuel_left =
    elim (Bool-cases (ltb (offset + limit) (length xs))) [
      | inl more ↦
          rw
            (
              paginate_page offset limit xs (omega arith) (omega arith) inside,
              more,
              walk_total fuel (offset + limit) limit xs pos_limit fits (ground arith)
                  (ground arith),
              drop_more offset limit xs,
            )
            refl
      | inr last ↦
          rw (paginate_page offset limit xs (omega arith) (omega arith) inside, last)
            (ap returned (take_all limit (drop offset xs) (leftover offset limit xs last)))
    ]

abbrev clusters_of : Outcome Listing → List Cluster
clusters_of (returned l) = l.clusters
clusters_of panicked = []
clusters_of out_of_fuel = []

cut_length :
    (offset end limit : ℕ) (xs : List Cluster) (l : Listing)
    → end ≤ offset + limit
    → listing_to (pos offset) (pos end) xs ≡ returned l
    → length l.clusters ≤ limit
unfolding listing_to
cut_length offset end limit xs l h e = elim (Bool-cases (leb offset end && leb end (length xs))) [
  | inl p ↦
      let q = ap (λ (o : Outcome Listing). clusters_of o) (rw (p, listing_to) at e) in
      omega (
        arith,
        length-take (end - offset) (drop offset xs),
        ap (λ (cs : List Cluster). length cs) q,
      )
  | inr p ↦ cc (rw (p, listing_to) at e)
]

-- No page holds more clusters than the limit.
pub paginate_limit :
    (offset limit : ℕ) (xs : List Cluster) (l : Listing)
    → offset + limit < half_range
    → paginate (pos offset) (pos limit) xs ≡ returned l
    → length l.clusters ≤ limit
unfolding paginate
paginate_limit offset limit xs l fits e = elim (le_total (offset + limit) (length xs)) [
  | inl whole ↦
      cut_length offset (offset + limit) limit xs l (omega arith)
        (rw (end_index_whole offset limit (length xs) fits whole, paginate) at e)
  | inr short ↦
      cut_length offset (length xs) limit xs l short
        (rw (end_index_cut offset limit (length xs) fits short, paginate) at e)
]
