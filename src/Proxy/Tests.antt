-- ===== src/Proxy/Tests.antt =====
-- The cache and the buffer on small inputs, and the theorems at concrete states.
use csapp_3e_study.Base.{
  ℕ, suc, ◌+◌, ◌%◌, ◌≤◌, ◌<◌, ◌≡◌, ◌⊎◌, ◌≢◌, refl, arith, true, List, [], ◌∷◌, ◌++◌, Option, some,
  none, length, replicate, take,
}
use csapp_3e_study.Base.Texts.{codes, same_text}
use csapp_3e_study.Base.Int.{pos, ◌+ℤ◌, ◌-ℤ◌}
use csapp_3e_study.Proxy.Cache.{
  Entry, Cache, cache_init, uri_gen, look_up, grown, cache_get, entry_create, visit_first,
  visit_again, put_back, walk, make_room, cache_bookkeeping, cache_put,
}
use csapp_3e_study.Proxy.Cache.Rooms.{count_uri, count_object, IsCache}
use csapp_3e_study.Proxy.Cache.Puts.{Held, cache_put_lem, Answered, cache_get_lem}
use csapp_3e_study.Proxy.Responses.{max_cache_size, relayed, forward_response}
use csapp_3e_study.Proxy.Responses.Caching.{Filled, forward_response_lem}
use csapp_3e_study.Proxy.Requests.{crlf, startswithcase, parse_reqline, forward_request}
use csapp_3e_study.Proxy.Requests.Headers.{forward_request_lem}
use csapp_3e_study.Proxy.Requests.Parsing.{reqline, version_line, parse_reqline-reqline}
use csapp_3e_study.Proxy.Queue.{
  Sbuf, sbuf_create, copy_in, copy_out, put_item, get_item, sbuf_enq, sbuf_deq,
}
use csapp_3e_study.Proxy.Queue.Overlap.{IsEmpty, enq-enq-deq}
use csapp_3e_study.Proxy.Queue.Threads.{
  Threads, Reached, initial, after, enq_wait, created, stored, copy_bounds,
}

-- All that the tests compute with.
proxy : Unit {0}
unfolding cache_init uri_gen same_text look_up grown cache_get entry_create visit_first visit_again
    put_back walk make_room cache_bookkeeping cache_put sbuf_create copy_in copy_out put_item
    get_item sbuf_enq sbuf_deq ◌+ℤ◌ ◌-ℤ◌
proxy = tt

-- Two objects of four bytes in a cache of ten, then one of six: the one that was read stays until its
-- patience is used up, and the older of the others goes.
abbrev put : Option Cache → ℕ → List ℕ → Option Cache
put none loc body = none
put (some c) loc body = cache_put 40 c (120 ∷ []) (loc ∷ []) body (length body)

abbrev names : Option Cache → List (List ℕ)
names none = []
names (some c) = uris c.entries
  where
    uris : List Entry → List (List ℕ)
    uris [] = []
    uris (x ∷ xs) = x.uri ∷ uris xs

three_objects :
    names (
      put
        (put (put (some (cache_init 10)) 97 (replicate 4 1)) 98 (replicate 4 2))
        99
        (replicate 6 3))
    ≡ (120 ∷ 47 ∷ 99 ∷ []) ∷ (120 ∷ 47 ∷ 98 ∷ []) ∷ []
unfolding proxy
three_objects = refl

-- A cache of ten bytes with one object.
abbrev one_object : Cache
one_object = record {
  freesz = 6;
  entries =
      record { patience = pos 3; uri = 120 ∷ 47 ∷ 97 ∷ []; body = replicate 4 1; size = 4 } ∷ [];
}

one_name : (u : List ℕ) → count_uri u one_object.entries ≤ 1
one_name u = ground arith

one_object-IsCache : IsCache 10 one_object
one_object-IsCache = record { used = refl; room = omega arith; distinct = one_name; fits = refl }

cache_put_lem_example :
    (c' : Cache) × (cache_put 3 one_object (120 ∷ []) (98 ∷ []) (5 ∷ 6 ∷ []) 2 ≡ some c')
    × IsCache 10 c'
    × Held (uri_gen (120 ∷ []) (98 ∷ [])) (take 2 (5 ∷ 6 ∷ [])) one_object c'
    × ((u b : List ℕ)
        → u ≢ uri_gen (120 ∷ []) (98 ∷ [])
        → count_object u b c'.entries ≤ count_object u b one_object.entries)
cache_put_lem_example =
    cache_put_lem 3 one_object (120 ∷ []) (98 ∷ []) (5 ∷ 6 ∷ []) 2 one_object-IsCache (omega arith)
      (omega arith) (omega arith)

cache_get_lem_example :
    Answered 10
      (uri_gen (120 ∷ []) (97 ∷ []))
      one_object
      (0 ∷ [])
      1
      (cache_get one_object (120 ∷ []) (97 ∷ []) (0 ∷ []) 1)
cache_get_lem_example =
    cache_get_lem one_object (120 ∷ []) (97 ∷ []) (0 ∷ []) 1 one_object-IsCache (omega arith)

-- The cache of the proxy with that object, and a response of two parts.
abbrev roomy : Cache
roomy = record { freesz = 1048996; entries = one_object.entries }

roomy-IsCache : IsCache max_cache_size roomy
roomy-IsCache = record { used = refl; room = omega arith; distinct = one_name; fits = refl }

forward_response_lem_example :
    (c' : Cache) × (forward_response 3 roomy
        (120 ∷ [])
        (98 ∷ [])
        (relayed (5 ∷ []) ∷ relayed (6 ∷ []) ∷ [])
      ≡ some c')
    × IsCache max_cache_size c'
    × Filled (uri_gen (120 ∷ []) (98 ∷ [])) (some (5 ∷ 6 ∷ [])) roomy c'
forward_response_lem_example =
    forward_response_lem 3 roomy (120 ∷ []) (98 ∷ []) roomy-IsCache (omega arith)
      (relayed (5 ∷ []) ∷ relayed (6 ∷ []) ∷ [])

-- A buffer of four items of two bytes.
abbrev fresh : Sbuf
fresh = sbuf_create 4 2

fresh-IsEmpty : IsEmpty fresh
unfolding sbuf_create
fresh-IsEmpty = omega arith

four_slots : fresh.slots ≡ suc (suc 2)
unfolding sbuf_create
four_slots = refl

two_bytes : fresh.sz ≡ 2
unfolding sbuf_create
two_bytes = refl

enq-enq-deq_example :
    (q1 q2 q3 : Sbuf) × (sbuf_enq fresh (1 ∷ 2 ∷ []) ≡ some q1)
    × (sbuf_enq q1 (3 ∷ 4 ∷ []) ≡ some q2)
    × (sbuf_deq q2 ≡ some (1 ∷ 3 ∷ [], q3))
enq-enq-deq_example =
    enq-enq-deq fresh 1 (2 ∷ []) (3 ∷ 4 ∷ []) 2 fresh-IsEmpty (omega (arith, two_bytes))
      (omega (arith, two_bytes)) four_slots

-- One thread has waited for a slot.
abbrev waiting : Threads
waiting = record (created 4 2) { q = record fresh { slots = 3 }; enq_waited = 0 + 1 }

waiting-Reached : Reached 4 2 waiting
waiting-Reached = after initial (enq_wait 3 four_slots)

copy_bounds_example :
    ((waiting.enq_waited ≡ 0)
      ⊎ ((stored (waiting.q) < 4)
          × (waiting.q.rear % waiting.q.n + waiting.q.sz ≤ length (waiting.q.bytes))))
    × ((waiting.deq_waited ≡ 0)
        ⊎ ((0 < stored (waiting.q))
            × (waiting.q.front % waiting.q.n + waiting.q.sz ≤ length (waiting.q.bytes))))
copy_bounds_example = copy_bounds waiting-Reached (omega arith) (omega arith) (omega arith)

-- The request line and the headers of a browser.
headers_forwarded :
    forward_request (codes "ua") (codes "h") (codes "x") (
      (codes "accept: a" ++ crlf)
      ∷ (codes "connection: keep-alive" ++ crlf)
      ∷ crlf
      ∷ (codes "body")
      ∷ [])
    ≡ (codes "GET /x HTTP/1.0" ++ crlf)
      ∷ (codes "User-Agent: ua" ++ crlf)
      ∷ (codes "Connection: close" ++ crlf)
      ∷ (codes "Proxy-Connection: close" ++ crlf)
      ∷ (codes "accept: a" ++ crlf)
      ∷ (codes "Host: h" ++ crlf)
      ∷ crlf
      ∷ []
unfolding forward_request
headers_forwarded = refl

parse_reqline-reqline_example :
    parse_reqline (reqline (codes "h") (some (codes "81")) (codes "a/b") (version_line true))
    ≡ some (record { host = codes "h"; port = codes "81"; loc = codes "a/b" })
parse_reqline-reqline_example =
    parse_reqline-reqline (codes "h") (codes "a/b") (some (codes "81")) true (omega arith)
      (omega arith) (omega arith)

-- A browser's request with a header that the proxy replaces, in lower case.
abbrev browser_lines : List (List ℕ)
browser_lines = (codes "connection: a" ++ crlf) ∷ (codes "Host: h" ++ crlf) ∷ crlf ∷ []

forward_request_lem_example :
    forward_request (codes "ua") (codes "h") (codes "x") browser_lines
    ≡ (codes "GET /x HTTP/1.0" ++ crlf)
      ∷ (codes "User-Agent: ua" ++ crlf)
      ∷ (codes "Connection: close" ++ crlf)
      ∷ (codes "Proxy-Connection: close" ++ crlf)
      ∷ (codes "Host: h" ++ crlf)
      ∷ crlf
      ∷ []
unfolding startswithcase same_text
forward_request_lem_example = forward_request_lem (codes "ua") (codes "h") (codes "x") browser_lines
