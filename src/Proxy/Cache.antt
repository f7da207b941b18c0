-- ===== src/Proxy/Cache.antt =====
-- labs/09-proxy/cache.c: the list of cached objects, from `head.next` to `head.prev`.
pub mod Walks
pub mod Rooms
pub mod Puts
use csapp_3e_study.Base.{
  ℕ, zero, suc, ◌+◌, ◌-◌, ◌<◌, ◌≡◌, Bool, true, false, ◌&&◌, ◌||◌, List, [], ◌∷◌, ◌++◌, Option,
  some, none, ltb, ◌==◌, if◌then◌else◌, length, take, drop, replicate,
}
use csapp_3e_study.Base.Int.{ℤ, pos, negsuc, ◌+ℤ◌, ◌-ℤ◌, leb_ℤ}
use csapp_3e_study.Base.Texts.{same_text}
use csapp_3e_study.Base.Words.{add64, sub64}

-- `struct cache_entry`, less its links; texts are the bytes before the final 0.
pub record Entry : Type 0 where
  pub patience : ℤ
  pub uri : List ℕ
  pub body : List ℕ
  pub size : ℕ

pub record Cache : Type 0 where
  pub freesz : ℕ
  pub entries : List Entry

unfoldable pub cache_init : ℕ → Cache
cache_init maxsize = record { freesz = maxsize; entries = [] }

-- `host`, a slash, and `loc`.
unfoldable pub uri_gen : List ℕ → List ℕ → List ℕ
uri_gen host loc = host ++ 47 ∷ loc

-- The loop of `cache_get`: the entry that is found, and the list with its patience one lower.
unfoldable pub look_up : List ℕ → List Entry → Option Entry × List Entry
unfolding same_text
look_up uri [] = (none, [])
look_up uri (x ∷ xs) =
    let (found, xs') = look_up uri xs in
    if same_text x.uri uri
    then (some x, record x { patience = x.patience -ℤ pos 1 } ∷ xs)
    else (found, x ∷ xs')

-- `malloc(size)` where the buffer is too small for the object.
unfoldable pub grown : List ℕ → ℕ → ℕ → List ℕ
grown buf bufsz size = if ltb bufsz size then replicate size 0 else buf

-- `cache_get`: whether an object was found, the buffer, its size, and the cache; `none` where `memcpy`
-- writes past the end of the buffer, or reads past the end of the object.
unfoldable pub cache_get : Cache → List ℕ → List ℕ → List ℕ → ℕ → Option (Bool × List ℕ × ℕ × Cache)
unfolding look_up uri_gen grown
cache_get c host loc buf bufsz =
    let (found, es) = look_up (uri_gen host loc) c.entries in
    elim found [
      | none ↦ some (false, buf, bufsz, c)
      | some x ↦
          let room = grown buf bufsz x.size in
          if ltb (length room) x.size || ltb (length x.body) x.size
          then none
          else some
              (true, take x.size x.body ++ drop x.size room, x.size, record c { entries = es })
    ]

-- DEFAULT_PATIENCE
abbrev pub default_patience : ℤ
default_patience = pos 3

unfoldable pub entry_create : List ℕ → List ℕ → List ℕ → ℕ → Entry
unfolding uri_gen
entry_create host loc body size = record {
  patience = default_patience;
  uri = uri_gen host loc;
  body = take size body;
  size = size;
}

-- An entry that `cache_promote` has moved to the head of the list.
abbrev pub promoted : Entry → Entry
promoted x = record x { patience = x.patience +ℤ default_patience }

-- `cache_insert`, at the head.
abbrev pub cache_insert : Entry → List Entry → List Entry
cache_insert node es = node ∷ es

-- What a loop of `cache_bookkeeping` does with the entry that it visits.
pub data Visit : Type 0 where
  take_it promote evict skip : Visit

-- The first loop, which looks for the entry of the pending object.
unfoldable pub visit_first : List ℕ → ℕ → ℕ → Entry → Visit
unfolding same_text
visit_first uri size freesz x =
    if same_text x.uri uri
    then take_it
    else if leb_ℤ x.patience (pos 0)
    then promote
    else if ltb freesz size
    then evict
    else skip

-- The inner loop of the second one.
unfoldable pub visit_again : ℕ → Entry → Visit
visit_again freesz x = if leb_ℤ x.patience (pos 0) then promote else evict

-- How a loop ends: at the entry of the pending object, or at the head. Both have the list, with
-- that entry first, and the free size.
pub data Walk : Type 0 where
  matched ended : List Entry → ℕ → Walk

-- The entries from `node` to the head, put back before those that the loop has passed.
unfoldable pub put_back : List Entry → List Entry → List Entry
put_back [] passed = passed
put_back (x ∷ more) passed = put_back more (x ∷ passed)

-- The loop from `node` to the head, where `ahead` are the entries that it has not passed, from `node`
-- on. A promoted entry is put before the first, so the loop comes to it again, unless it was itself
-- the first: then `node` is the head already. `none` where the fuel runs out.
unfoldable pub walk : (ℕ → Entry → Visit) → ℕ → ℕ → List Entry → List Entry → Option Walk
unfolding put_back
walk visit fuel freesz [] passed = some (ended passed freesz)
walk visit zero freesz (x ∷ more) passed = none
walk visit (suc fuel) freesz (x ∷ more) passed = elim (visit freesz x) [
  | take_it ↦
      some (matched (record x { patience = default_patience } ∷ put_back more passed) freesz)
  | promote ↦ elim more [
    | [] ↦ some (ended (promoted x ∷ passed) freesz)
    | y ∷ ys ↦ walk visit fuel freesz (y ∷ (ys ++ promoted x ∷ [])) passed
  ]
  | evict ↦ walk visit fuel (add64 freesz x.size) more passed
  | skip ↦ walk visit fuel freesz more (x ∷ passed)
]

-- The second loop: rounds through the whole list until the free size is enough.
unfoldable pub make_room : ℕ → ℕ → ℕ → ℕ → List Entry → Option (List Entry × ℕ)
unfolding walk put_back
make_room zero fuel size freesz es = if ltb freesz size then none else some (es, freesz)
make_room (suc k) fuel size freesz es = elim (ltb freesz size) [
  | false ↦ some (es, freesz)
  | true ↦ elim (walk visit_again fuel freesz (put_back es []) []) [
    | some (ended es' freesz') ↦ make_room k fuel size freesz' es'
    | some (matched es' freesz') ↦ none
    | none ↦ none
  ]
]

-- `cache_bookkeeping`: how the first loop ended, and the cache.
unfoldable pub cache_bookkeeping : ℕ → Cache → Entry → Option (Bool × Cache)
unfolding walk put_back make_room
cache_bookkeeping fuel c pending =
    elim (walk (visit_first pending.uri pending.size) fuel c.freesz (put_back c.entries []) []) [
      | none ↦ none
      | some (matched es freesz) ↦ some (true, record { freesz = freesz; entries = es })
      | some (ended es freesz) ↦ elim (make_room fuel fuel pending.size freesz es) [
        | none ↦ none
        | some (es', freesz') ↦ some (false, record { freesz = freesz'; entries = es' })
      ]
    ]

unfoldable pub cache_put : ℕ → Cache → List ℕ → List ℕ → List ℕ → ℕ → Option Cache
unfolding cache_bookkeeping entry_create
cache_put fuel c host loc buf bufsz =
    let node = entry_create host loc buf bufsz in
    elim (cache_bookkeeping fuel c node) [
      | none ↦ none
      | some (true, c') ↦ some c'
      | some (false, c') ↦
          some (record { freesz = sub64 c'.freesz bufsz; entries = cache_insert node c'.entries })
    ]
