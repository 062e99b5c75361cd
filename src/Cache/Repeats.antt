-- ===== src/Cache/Repeats.antt =====
-- What the cache makes of repeated requests: pkg/apiserver/web/cache.go, `HTTPCache`.
use cluster_registry.Prelude.{String, ◌≡◌, ◌≢◌, List, ok, ℤ}
use cluster_registry.Cache.{CachedResponse, CacheApi}

-- What is documented of the store: an entry that was set without an error is there, as long as
-- nothing else happens to the store and its time to live is not over.
abbrev pub Stores : {W Url : Type 0} → CacheApi W Url → Type 0
Stores {W = W} api =
    (key text : String) (ttl : ℤ) (tags : List String) (w w' : W)
    → api.set key text ttl tags w ≡ (ok tt, w')
    → (api.get key w').0 ≡ ok text

-- An answer that can be decoded from its encoding, which is not empty.
abbrev Survives : {W Url : Type 0} → CacheApi W Url → CachedResponse → Type 0
Survives api r = (api.decode (api.encode r) ≡ r) × (api.encode r ≢ "")
