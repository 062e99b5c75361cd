-- ===== src/Slt/Update/Tagging.antt =====
-- What the end-to-end test sends: `updateCrd` of test/slt/checks/update/update.go, and what the
-- controller of the cluster makes of it.
use cluster_registry.Prelude.{
  String, ◌==◌, ◌≡◌, ◌≢◌, refl, sym, ap, ◌∙◌, subst, true, false, Bool-cases, Option, none, some,
  [], ◌⊎◌, inl, inr, Dict, lookup, insert, lookup-insert, get_or, ok, ok_injective, Result-cases,
  eq_iff,
}
use cluster_registry.Registry.Cluster.{Cluster}
use cluster_registry.ClusterController.{skip_cache_invalidation_annotation, skips_invalidation}
use cluster_registry.Slt.{SltApi, ◌>>=◌, pure_call, act_bind-eq-ok}
use cluster_registry.Slt.Update.{
  tag_slt, flip_tag, next_tags, with_tags, tag_of, read_crd, send_crd, update_crd,
}

-- The test's tag is one of its two values, another one than before; no other tag is changed.
pub record Flips (old : Option (Dict String)) (new : Dict String) (value : String) : Type 0 where
  pub known : (value ≡ "Tick") ⊎ (value ≡ "Tack")
  pub changed : value ≢ tag_of old
  pub there : lookup tag_slt new ≡ some value
  pub rest :
      (name : String) → (tag_slt == name) ≡ false → lookup name new ≡ lookup name (get_or old [])

insert-Flips :
    (value : String) (tags : Dict String)
    → (value ≡ "Tick") ⊎ (value ≡ "Tack")
    → value ≢ tag_of (some tags)
    → Flips (some tags) (insert tag_slt value tags) value
insert-Flips value tags known changed = record {
  known = known;
  changed = changed;
  there = rw (lookup-insert tag_slt tag_slt value tags) refl;
  rest = λ name other. rw (lookup-insert tag_slt name value tags, other) refl;
}

-- The same of a result that is these tags.
result-Flips :
    (value : String) (tags new : Dict String)
    → (value ≡ "Tick") ⊎ (value ≡ "Tack")
    → value ≢ tag_of (some tags)
    → ok (insert tag_slt value tags) ≡ ok new
    → Flips (some tags) new (tag_of (some new))
result-Flips value tags new known changed e =
    let same : insert tag_slt value tags ≡ new = ok_injective e in
    let set : tag_of (some (insert tag_slt value tags)) ≡ value =
      rw (lookup-insert tag_slt tag_slt value tags) refl in
    rw (← same) (rw set (insert-Flips value tags known changed))

texts_differ : (s t : String) → (s == t) ≡ false → s ≢ t
texts_differ s t h e = cc (h, (eq_iff s t).1 e)

flip_tag-Flips :
    (tags new : Dict String) (found : Option String)
    → lookup tag_slt tags ≡ found
    → flip_tag tags found ≡ ok new
    → Flips (some tags) new (tag_of (some new))
unfolding flip_tag
flip_tag-Flips tags new none here e =
    result-Flips "Tick" tags new (inl refl) (λ h. texts_differ "Tick" "" refl (rw here at h)) e
flip_tag-Flips tags new (some value) here e = elim (Bool-cases (value == "Tick")) [
  | inl tick ↦
      result-Flips "Tack" tags new (inr refl)
        (λ h. texts_differ "Tack" "Tick" refl (rw (here, (eq_iff value "Tick").0 tick) at h))
        (rw tick at e)
  | inr other ↦ elim (Bool-cases (value == "Tack")) [
    | inl tack ↦
        result-Flips "Tick" tags new (inl refl)
          (λ h. texts_differ "Tick" "Tack" refl (rw (here, (eq_iff value "Tack").0 tack) at h))
          (rw (other, tack) at e)
    | inr wrong ↦ cc (rw (other, wrong) at e)
  ]
]

next_tags-Flips :
    (old : Option (Dict String)) (new : Dict String)
    → next_tags old ≡ ok new
    → Flips old new (tag_of (some new))
unfolding next_tags insert lookup
next_tags-Flips none new e =
    let flips = result-Flips "Tick" [] new (inl refl) (λ h. texts_differ "Tick" "" refl h) e in
    record { known = flips.known; changed = flips.changed; there = flips.there; rest = flips.rest }
next_tags-Flips (some tags) new e = flip_tag-Flips tags new (lookup tag_slt tags) refl e

module _ {W Principal : Type 0} (api : SltApi W Principal) where
  -- What is sent of a resource: it is encoded and patched, under its name.
  abbrev pub Sends : String → Cluster → W → W → Type 0
  Sends namespace c w w' =
      (body : String) × (api.encode_cluster c ≡ ok body)
      × ((api.patch namespace c.spec.name body w).0 ≡ ok tt)
      × (w' ≡ (api.patch namespace c.spec.name body w).1)

  send_crd-Sends :
      (namespace : String) (c : Cluster) (w : W) (name value : String)
      → (send_crd api namespace c w).0 ≡ ok (name, value)
      → (name ≡ c.spec.name)
        × (value ≡ tag_of c.spec.tags)
        × Sends namespace c w (send_crd api namespace c w).1
  unfolding send_crd
  send_crd-Sends namespace c w name value e = elim (Result-cases (api.encode_cluster c)) [
    | inr (why, p) ↦ cc (rw (p, send_crd, ◌>>=◌) at e)
    | inl (body, p) ↦ elim (Result-cases (api.patch namespace c.spec.name body w).0) [
      | inr (why, q) ↦ cc (rw (p, send_crd, ◌>>=◌, q) at e)
      | inl (u, q) ↦
          let result : ok (c.spec.name, tag_of c.spec.tags) ≡ ok (name, value) =
            rw (p, send_crd, ◌>>=◌, q) at e in
          let same = ok_injective result in
          (
            sym (ap (λ r. r.0) same),
            sym (ap (λ r. r.1) same),
            (body, p, q, rw (p, send_crd, ◌>>=◌, q) refl),
          )
    ]
  ]

  -- Where the end-to-end test updates the resource, it sends back the resource that it read under
  -- its name, with the value of its tag, which it returns, changed to the other one of two, and
  -- every other tag as it was; and the message that the controller sends for it asks to keep the
  -- cached lists.
  pub update_crd-Flips :
      (namespace name value : String) (w : W)
      → (update_crd api namespace w).0 ≡ ok (name, value)
      → (c : Cluster) × (tags : Dict String) × ((read_crd api namespace w).0 ≡ ok c)
        × (name ≡ c.spec.name)
        × Flips c.spec.tags tags value
        × Sends namespace
            (with_tags c tags)
            (read_crd api namespace w).1
            (update_crd api namespace w).1
        × (skips_invalidation (with_tags c tags) ≡ true)
  unfolding update_crd
  update_crd-Flips namespace name value w e =
      let (c, here, e1, step1) =
        act_bind-eq-ok (read_crd api namespace)
          (λ c.
            pure_call (next_tags c.spec.tags) >>= λ tags. send_crd api namespace (with_tags c tags))
          w e in
      let w1 = (read_crd api namespace w).1 in
      let (tags, flipped, e2, step2) =
        act_bind-eq-ok (pure_call (next_tags c.spec.tags))
          (λ tags. send_crd api namespace (with_tags c tags)) w1 e1 in
      let (named, valued, sends) = send_crd-Sends namespace (with_tags c tags) w1 name value e2 in
      (
        c,
        tags,
        here,
        named,
        subst (λ v. Flips c.spec.tags tags v) (sym valued)
            (next_tags-Flips c.spec.tags tags flipped),
        (sends.0, sends.1, sends.2, ap (λ r. r.1) (step1 ∙ step2) ∙ sends.3),
        rw
            (lookup-insert skip_cache_invalidation_annotation skip_cache_invalidation_annotation ""
              (get_or c.meta.annotations []))
            refl,
      )
