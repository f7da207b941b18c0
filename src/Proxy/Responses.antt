-- ===== src/Proxy/Responses.antt =====
-- labs/09-proxy/proxy.c: `forward_response`, as far as it fills the cache.
pub mod Caching
use csapp_3e_study.Base.{
  ℕ, ◌+◌, ◌-◌, List, [], ◌∷◌, ◌++◌, Option, none, some, leb, if◌then◌else◌, length, take, min,
}
use csapp_3e_study.Proxy.Cache.{Cache, cache_put}

-- MAX_CACHE_SIZE and MAX_OBJECT_SIZE
abbrev pub max_cache_size : ℕ
max_cache_size = 1049000

abbrev pub max_object_size : ℕ
max_object_size = 102400

-- One round of the loop: `recv` returns bytes, and `send` takes them all; or one of them fails.
pub data Round : Type 0 where
  relayed : List ℕ → Round
  failed : Round

-- The loop until `recv` returns 0: what `data` begins with, and `datasz`; `none` where a call fails.
unfoldable pub collect : List Round → List ℕ → ℕ → Option (List ℕ × ℕ)
collect [] body datasz = some (body, datasz)
collect (failed ∷ more) body datasz = none
collect (relayed buf ∷ more) body datasz =
    let n = length buf in
    let fits = leb datasz max_object_size in
    let body' = if fits then body ++ take (min (max_object_size - datasz) n) buf else body in
    let datasz' = if fits then datasz + n else datasz in collect more body' datasz'

-- `forward_response`, with the fuel of `cache_put`.
unfoldable pub forward_response : ℕ → Cache → List ℕ → List ℕ → List Round → Option Cache
unfolding collect
forward_response fuel c host loc rounds = elim (collect rounds [] 0) [
  | none ↦ some c
  | some (body, datasz) ↦
      if leb datasz max_object_size then cache_put fuel c host loc body datasz else some c
]
