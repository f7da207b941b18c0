-- ===== src/Proxy/Requests/Parsing.antt =====
-- What the request line is parsed to.
use csapp_3e_study.Base.{
  ℕ, ◌≡◌, ◌∙◌, refl, arith, Bool, true, false, List, [], ◌∷◌, ◌++◌, Option, some, none,
  if◌then◌else◌,
}
use csapp_3e_study.Base.Texts.{
  codes, same_text, same_text_refl, split_at, token, Without, Without-append, token-append,
  split_at-append, split_at-none,
}
use csapp_3e_study.Proxy.Requests.{
  slash, colon, space, crlf, default_port, startswith, parse_port, uri_parse, known_version,
  parse_fields, parse_reqline,
}

-- A nonempty text without slash, colon or space.
abbrev pub Plain : List ℕ → Type 0
Plain [] = ⊥
Plain (c ∷ cs) = Without slash (c ∷ cs) × Without colon (c ∷ cs) × Without space (c ∷ cs)

-- The host with the port behind a colon, if there is one.
abbrev pub authority : List ℕ → Option (List ℕ) → List ℕ
authority host none = host
authority host (some port) = host ++ colon ∷ port

abbrev pub port_of : Option (List ℕ) → List ℕ
port_of none = default_port
port_of (some port) = port

abbrev pub PlainPort : Option (List ℕ) → Type 0
PlainPort none = Unit
PlainPort (some port) = Plain port

authority-Without-slash :
    (host : List ℕ) (port : Option (List ℕ))
    → Plain host
    → PlainPort port
    → Without slash (authority host port)
authority-Without-slash [] port h k = elim h [ ]
authority-Without-slash (c ∷ cs) none h k = h.0
authority-Without-slash (c ∷ cs) (some []) h k = elim k [ ]
authority-Without-slash (c ∷ cs) (some (p ∷ ps)) h k =
    Without-append slash (c ∷ cs) (colon ∷ p ∷ ps) h.0 (omega arith, k.0)

authority-Without-space :
    (host : List ℕ) (port : Option (List ℕ))
    → Plain host
    → PlainPort port
    → Without space (authority host port)
authority-Without-space [] port h k = elim h [ ]
authority-Without-space (c ∷ cs) none h k = h.2
authority-Without-space (c ∷ cs) (some []) h k = elim k [ ]
authority-Without-space (c ∷ cs) (some (p ∷ ps)) h k =
    Without-append space (c ∷ cs) (colon ∷ p ∷ ps) h.2 (omega arith, k.2)

parse_port-authority :
    (host loc : List ℕ) (port : Option (List ℕ))
    → Plain host
    → PlainPort port
    → parse_port (authority host port) loc
      ≡ some (record { host = host; port = port_of port; loc = loc })
unfolding parse_port
parse_port-authority [] loc port h k = elim h [ ]
parse_port-authority (c ∷ cs) loc none h k = rw (split_at-none colon (c ∷ cs) h.1, parse_port)
parse_port-authority (c ∷ cs) loc (some []) h k = elim k [ ]
parse_port-authority (c ∷ cs) loc (some (p ∷ ps)) h k =
    rw (split_at-append colon (c ∷ cs) (p ∷ ps) h.1, split_at-none colon (p ∷ ps) k.1, parse_port)

-- A URI of this proxy's kind.
abbrev pub uri_of : List ℕ → Option (List ℕ) → List ℕ → List ℕ
uri_of host port loc = codes "http://" ++ (authority host port ++ slash ∷ loc)

token-authority :
    (host loc : List ℕ) (port : Option (List ℕ))
    → Plain host
    → PlainPort port
    → token slash (slash ∷ (authority host port ++ slash ∷ loc)) ≡ some (authority host port, loc)
unfolding token
token-authority [] loc port h k = elim h [ ]
token-authority (c ∷ cs) loc none h k = token-append slash c cs h.0 loc
token-authority (c ∷ cs) loc (some port) h k =
    token-append slash c (cs ++ colon ∷ port) (authority-Without-slash (c ∷ cs) (some port) h k) loc

uri_parse-uri_of :
    (host loc : List ℕ) (port : Option (List ℕ))
    → Plain host
    → PlainPort port
    → uri_parse (uri_of host port loc)
      ≡ some (record { host = host; port = port_of port; loc = loc })
unfolding uri_parse
uri_parse-uri_of host loc port h k =
    rw (token-authority host loc port h k) (parse_port-authority host loc port h k)

-- A request line, and what stands behind the method.
abbrev pub fields_of : List ℕ → List ℕ → List ℕ
fields_of uri version = uri ++ space ∷ version

abbrev pub reqline : List ℕ → Option (List ℕ) → List ℕ → List ℕ → List ℕ
reqline host port loc version = codes "GET" ++ space ∷ fields_of (uri_of host port loc) version

abbrev pub version_line : Bool → List ℕ
version_line newer = (if newer then codes "HTTP/1.1" else codes "HTTP/1.0") ++ crlf

version_token : (newer : Bool) → token space (version_line newer) ≡ some (version_line newer, [])
unfolding token split_at
version_token true = refl
version_token false = refl

version_known : (newer : Bool) → known_version (version_line newer) ≡ true
unfolding startswith
version_known true = refl
version_known false = refl

fields_lem :
    (text uri rest version : List ℕ)
    → token space text ≡ some (uri, rest)
    → token space rest ≡ some (version, [])
    → known_version version ≡ true
    → parse_fields text ≡ uri_parse uri
unfolding parse_fields
fields_lem text uri rest version e e' known = rw (e, e', known, parse_fields) (unfold token in refl)

reqline_lem :
    (text method rest : List ℕ)
    → token space text ≡ some (method, rest)
    → same_text method (codes "GET") ≡ true
    → parse_reqline text ≡ parse_fields rest
unfolding parse_reqline
reqline_lem text method rest e get = rw (e, get, parse_reqline)

-- A request line with the method GET, an HTTP URI of a host, a port or none, and a location, and either
-- version is parsed to the host, the port or 80, and the location, where the host and the port are not
-- empty and have no slash, colon or space, and the location has no space.
pub parse_reqline-reqline :
    (host loc : List ℕ) (port : Option (List ℕ)) (newer : Bool)
    → Plain host
    → PlainPort port
    → Without space loc
    → parse_reqline (reqline host port loc (version_line newer))
      ≡ some (record { host = host; port = port_of port; loc = loc })
parse_reqline-reqline host loc port newer h k l =
    reqline_lem _ (codes "GET") (fields_of (uri_of host port loc) (version_line newer))
      (token-append space 71 (69 ∷ 84 ∷ []) (omega arith)
        (fields_of (uri_of host port loc) (version_line newer)))
      (same_text_refl (codes "GET"))
    ∙ fields_lem (fields_of (uri_of host port loc) (version_line newer)) (uri_of host port loc)
        (version_line newer) (version_line newer)
        (token-append space 104 (codes "ttp://" ++ (authority host port ++ slash ∷ loc)) spaceless
          (version_line newer))
        (version_token newer) (version_known newer)
    ∙ uri_parse-uri_of host loc port h k
  where
    rest : Without space (authority host port ++ slash ∷ loc)
    rest =
        Without-append space (authority host port) (slash ∷ loc)
          (authority-Without-space host port h k) (omega arith, l)

    spaceless : Without space (codes "http://" ++ (authority host port ++ slash ∷ loc))
    spaceless =
        Without-append space (codes "http://") (authority host port ++ slash ∷ loc) (omega arith)
          rest
