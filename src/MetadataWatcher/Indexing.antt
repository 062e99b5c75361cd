-- ===== src/MetadataWatcher/Indexing.antt =====
-- The elements that a path reaches: pkg/client/controllers/servicemetadatawatcher_controller.go,
-- `getNestedString`.
use cluster_registry.Prelude.{
  ℕ, zero, suc, ◌+◌, ◌<◌, String, ◌≡◌, refl, sym, ap, ◌∙◌, inl, inr, true, false, some, List, [],
  ◌∷◌, ◌++◌, length, All, ok, panicked, ℤ, pos, negsuc, parse_int, arith, Bool-cases,
}
use cluster_registry.MetadataWatcher.Fields.{
  Shape, map_of, other_value, Unstructured, is_bracketed, inner, resolve_index, get_elem?, element,
  enter, leaf, walk_keys, get_nested_string,
}

-- The integer is this place of a list of this length, from its start or from its end.
abbrev pub Means : ℕ → ℤ → ℕ → Type 0
Means n (pos i) j = i ≡ j
Means n (negsuc m) j = j + suc m ≡ n

-- An index is resolved to a place exactly if the place is within the list and is the one that the
-- index means: the index itself, or, for a negative one, the length less its size.
pub resolve_index-Means :
    (n : ℕ) (i : ℤ) (j : ℕ)
    → (resolve_index n i ≡ some j → (j < n) × Means n i j)
      × ((j < n) × Means n i j → resolve_index n i ≡ some j)
unfolding resolve_index
resolve_index-Means n (pos i) j = (λ e. ground (arith, e), λ h. ground (arith, h))
resolve_index-Means n (negsuc m) j = (λ e. ground (arith, e), λ h. ground (arith, h))

-- A key that is not in brackets.
abbrev IsField : String → Type 0
IsField key = is_bracketed key ≡ false

append_one : (xs ys : List String) (y : String) → (xs ++ y ∷ []) ++ ys ≡ xs ++ y ∷ ys
append_one [] ys y = refl
append_one (x ∷ xs) ys y = ap (λ r. x ∷ r) (append_one xs ys y)

append_nil : (xs : List String) → xs ++ [] ≡ xs
append_nil [] = refl
append_nil (x ∷ xs) = ap (λ r. x ∷ r) (append_nil xs)

get_elem?-some {ℓ} :
    {A : Type ℓ} (xs : List A) (i : ℕ) → i < length xs → (x : A) × (get_elem? xs i ≡ some x)
get_elem?-some [] i h = absurd (omega arith)
get_elem?-some (x ∷ xs) zero h = (x, refl)
get_elem?-some (x ∷ xs) (suc i) h = get_elem?-some xs i (omega arith)

module _ {Value Object Float : Type 0} (u : Unstructured Value Object Float) where
  -- Fields are put behind those so far.
  walk_keys-append :
      (here : Shape Object) (path cpath fields keys : List String)
      → All IsField fields
      → walk_keys u here path cpath (fields ++ keys) ≡ walk_keys u here path (cpath ++ fields) keys
  unfolding walk_keys
  walk_keys-append here path cpath [] keys h =
      ap (λ p. walk_keys u here path p keys) (sym (append_nil cpath))
  walk_keys-append here path cpath (f ∷ fields) keys (plain, h) =
      rw (walk_keys, plain)
        (walk_keys-append here path (cpath ++ f ∷ []) fields keys h
          ∙ ap (λ p. walk_keys u here path p keys) (append_one cpath fields f))

  -- Behind a key in brackets the path starts anew at what the key leads to.
  get_nested_string-enter :
      (v : Value) (obj : Object) (fields : List String) (key : String) (keys : List String)
      {item : Value}
      → u.shape v ≡ map_of obj
      → All IsField fields
      → is_bracketed key ≡ true
      → enter u obj fields (inner key) ≡ some (ok item)
      → get_nested_string u v (fields ++ key ∷ keys) ≡ get_nested_string u item keys
  unfolding get_nested_string walk_keys
  get_nested_string-enter v obj fields key keys shape plain bracketed leads =
      walk_keys-append (u.shape v) (fields ++ key ∷ keys) [] fields (key ∷ keys) plain
      ∙ rw (walk_keys, bracketed, shape, leads) refl

  -- Where a text in brackets leads that means this place of a slice.
  enter-Means :
      (obj : Object) (fields : List String) (k : String) (items : List Value) (i : ℤ) (j : ℕ)
      {item : Value}
      → u.nested_slice obj fields ≡ ok (some items)
      → parse_int "strconv.Atoi" k ≡ ok i
      → (j < length items) × Means (length items) i j
      → get_elem? items j ≡ some item
      → enter u obj fields k ≡ some (ok item)
  unfolding enter element
  enter-Means obj fields k items i j slice read means there =
      rw (slice, enter, read, element, (resolve_index-Means (length items) i j).1 means, there) refl

  -- A negative index reaches the same element as the index from the start that means the same
  -- place, whatever keys follow.
  get_nested_string-negative :
      (v : Value) (obj : Object) (fields : List String) (key key' : String) (keys : List String)
      (items : List Value) (j m : ℕ)
      → u.shape v ≡ map_of obj
      → All IsField fields
      → is_bracketed key ≡ true
      → is_bracketed key' ≡ true
      → u.nested_slice obj fields ≡ ok (some items)
      → parse_int "strconv.Atoi" (inner key) ≡ ok (negsuc m)
      → parse_int "strconv.Atoi" (inner key') ≡ ok (pos j)
      → j + suc m ≡ length items
      → get_nested_string u v (fields ++ key ∷ keys) ≡ get_nested_string u v (fields ++ key' ∷ keys)
  get_nested_string-negative v obj fields key key' keys items j m shape plain b b' slice back front
        counts =
      let inside : j < length items = omega (arith, counts) in
      let (item, there) = get_elem?-some items j inside in
      get_nested_string-enter v obj fields key keys shape plain b
        (enter-Means obj fields (inner key) items (negsuc m) j slice back (inside, counts) there)
      ∙ sym (
          get_nested_string-enter v obj fields key' keys shape plain b'
            (enter-Means obj fields (inner key') items (pos j) j slice front (inside, refl) there))

  walk_keys-other_value :
      (path cpath keys : List String) → walk_keys u other_value path cpath keys ≡ panicked
  unfolding walk_keys leaf
  walk_keys-other_value path cpath [] = refl
  walk_keys-other_value path cpath (key ∷ keys) = elim (Bool-cases (is_bracketed key)) [
    | inl p ↦ rw (walk_keys, p) refl
    | inr p ↦ rw (walk_keys, p) (walk_keys-other_value path (cpath ++ key ∷ []) keys)
  ]

  -- A path that leads through fields and a key in brackets to a value that is neither a map nor a
  -- text nor a Boolean nor nil, such as a number, panics whatever keys follow.
  get_nested_string-other_value :
      (v : Value) (obj : Object) (fields : List String) (key : String) (keys : List String)
      {item : Value}
      → u.shape v ≡ map_of obj
      → All IsField fields
      → is_bracketed key ≡ true
      → enter u obj fields (inner key) ≡ some (ok item)
      → u.shape item ≡ other_value
      → get_nested_string u v (fields ++ key ∷ keys) ≡ panicked
  unfolding get_nested_string
  get_nested_string-other_value v obj fields key keys shape plain bracketed leads other =
      get_nested_string-enter v obj fields key keys shape plain bracketed leads
      ∙ ap (λ here. walk_keys u here keys [] keys) other
      ∙ walk_keys-other_value keys [] keys
