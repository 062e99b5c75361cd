-- ===== src/Cache.antt =====
-- pkg/apiserver/web/cache.go: the middleware that keeps the answers of GET requests. The log lines
-- are left out.
pub mod Repeats
use Prim.Native.Nat.{Ordering}
use Prim.Native.String
use cluster_registry.Prelude.{
  ℕ, ltb, String, ◌<>◌, ◌==◌, Bool, true, false, Option, none, some, List, [], ◌∷◌, map, Dict,
  insert, Result, ok, err, Act, ℤ, if◌then◌else◌,
}

-- What is kept of an answer.
pub record CachedResponse : Type 0 where
  pub value : String
  pub header : Dict (List String)

-- An answer that was written. Without a call of `WriteHeader` its status is 0.
pub record Written : Type 0 where
  pub status : ℕ
  pub header : Dict (List String)
  pub bytes : String

-- A request, with the headers that its answer has before the middleware.
pub record CacheRequest (Url : Type 0) : Type 0 where
  pub method : String
  pub url : Url
  pub header : Dict (List String)

-- What the middleware calls: `Query` of a URL, the URL with the encoded query and its text; the
-- 64-bit FNV-1a hash of a text in base 36; the gob encoding of an answer and its decoding; and the
-- store, which is told the time to live and the tags of an entry.
pub record CacheApi (W Url : Type 0) : Type 0 where
  pub query : Url → Dict (List String)
  pub with_query : Dict (List String) → Url → Url
  pub url_text : Url → String
  pub fnv : String → String
  pub encode : CachedResponse → String
  pub decode : String → CachedResponse
  pub get : String → Act W (Result String)
  pub set : String → String → ℤ → List String → Act W (Result (Unit {0}))

-- `sort.Slice`: equal texts cannot be told apart, so that every sort gives the same list.
abbrev is_before : String → String → Bool
is_before a b = elim (String.compare a b) [ Ordering.gt ↦ false | _ ↦ true ]

insert_sorted : String → List String → List String
insert_sorted s [] = s ∷ []
insert_sorted s (t ∷ texts) =
    let rest = insert_sorted s texts in if is_before s t then s ∷ t ∷ texts else t ∷ rest

unfoldable pub sort_texts : List String → List String
unfolding insert_sorted
sort_texts [] = []
sort_texts (s ∷ texts) = insert_sorted s (sort_texts texts)

-- `strings.Join(v, ",")`
unfoldable pub join_values : List String → String
join_values [] = ""
join_values (v ∷ []) = v
join_values (v ∷ u ∷ values) = v <> "," <> join_values (u ∷ values)

-- The headers of a kept answer, set on those that are there.
unfoldable pub set_headers : Dict (List String) → Dict (List String) → Dict (List String)
set_headers [] header = header
set_headers (h ∷ headers) header = set_headers headers (insert h.0 (join_values h.1 ∷ []) header)

module _ {W Url : Type 0} (api : CacheApi W Url) where
  -- `sortURLParams`
  unfoldable pub sort_url_params : Url → Url
  sort_url_params url = api.with_query (map (λ p. (p.0, sort_texts p.1)) (api.query url)) url

  -- `GenerateKey` of the text of a URL; the hash takes every text.
  unfoldable pub generate_key : String → String
  generate_key text = api.fnv text

  abbrev pub sorted_request : CacheRequest Url → CacheRequest Url
  sorted_request req = record req { url = sort_url_params req.url }

  abbrev pub cache_key : CacheRequest Url → String
  cache_key req = generate_key (api.url_text (sort_url_params req.url))

  -- The answer from the cache.
  abbrev pub replay : Dict (List String) → CachedResponse → Written
  replay header r = record { status = 200; header = set_headers r.header header; bytes = r.value }

  -- The cached text; an error is logged, and counts as none.
  abbrev pub cached_text : Result String → String
  cached_text (err e) = ""
  cached_text (ok text) = text

  abbrev pub kept : Written → CachedResponse
  kept sent = record { value = sent.bytes; header = sent.header }

  -- A written answer is kept unless its status is that of an error; an error of the store is logged.
  unfoldable pub keep_answer : ℤ → List String → String → Written → Act W Written
  keep_answer ttl tags key sent w =
      if ltb sent.status 400
      then (let (answer, w') = api.set key (api.encode (kept sent)) ttl tags w in (sent, w'))
      else (sent, w)

  -- What follows the read of the store, which gave this text.
  unfoldable pub from_cached :
      ℤ
      → List String
      → (CacheRequest Url → Act W Written)
      → CacheRequest Url
      → String
      → String
      → Act W Written
  from_cached ttl tags next req key text w =
      if text == ""
      then (let (sent, w') = next (sorted_request req) w in keep_answer ttl tags key sent w')
      else (replay req.header (api.decode text), w)

  unfoldable pub serve_get :
      ℤ
      → List String
      → (CacheRequest Url → Act W Written)
      → CacheRequest Url
      → String
      → Act W Written
  serve_get ttl tags next req key w =
      let (found, w') = api.get key w in from_cached ttl tags next req key (cached_text found) w'

  -- `HTTPCache`. `next` is the handler with what `c.Error` makes of its error.
  unfoldable pub http_cache :
      ℤ → List String → (CacheRequest Url → Act W Written) → CacheRequest Url → Act W Written
  http_cache ttl tags next req w =
      if req.method == "GET" then serve_get ttl tags next req (cache_key req) w else next req w
