-- ===== src/Proxy/Requests.antt =====
-- labs/09-proxy/proxy.c: the request line, and the headers that are forwarded. Lines and tokens are
-- their bytes.
pub mod Parsing
pub mod Headers
use csapp_3e_study.Base.{
  ℕ, zero, suc, ◌+◌, Bool, true, false, ◌&&◌, ◌||◌, not, List, [], ◌∷◌, ◌++◌, Option, some, none,
  if◌then◌else◌, drop, length,
}
use csapp_3e_study.Base.Texts.{codes, same_text, starts_by, to_lower, split_at, token}

-- A slash, a colon, a space, and the end of a line.
abbrev pub slash : ℕ
slash = 47

abbrev pub colon : ℕ
colon = 58

abbrev pub space : ℕ
space = 32

abbrev pub crlf : List ℕ
crlf = 13 ∷ 10 ∷ []

unfoldable pub startswith : List ℕ → List ℕ → Bool
unfolding starts_by
startswith = starts_by (λ c. c)

unfoldable pub startswithcase : List ℕ → List ℕ → Bool
unfolding starts_by
startswithcase = starts_by to_lower

-- What a request asks for.
pub record Target : Type 0 where
  pub host : List ℕ
  pub port : List ℕ
  pub loc : List ℕ

abbrev pub default_port : List ℕ
default_port = codes "80"

abbrev pub scheme : List ℕ
scheme = codes "http:/"

-- The host and the port of a token, before `loc`.
unfoldable pub parse_port : List ℕ → List ℕ → Option Target
parse_port host loc = elim (split_at colon host) [
  | none ↦ some (record { host = host; port = default_port; loc = loc })
  | some (name, port) ↦ elim port [
    | [] ↦ none
    | c ∷ cs ↦ elim (split_at colon (c ∷ cs)) [
      | some p ↦ none
      | none ↦ some (record { host = name; port = c ∷ cs; loc = loc })
    ]
  ]
]

-- `uri_parse`: `loc` is what stands behind the slash that ends the host, or nothing.
unfoldable pub uri_parse : List ℕ → Option Target
unfolding startswith
uri_parse uri =
    if startswith uri scheme
    then elim (token slash (drop (length scheme) uri)) [
      | none ↦ none
      | some (host, loc) ↦ parse_port host loc
    ]
    else none

abbrev pub known_version : List ℕ → Bool
known_version tok = startswith tok (codes "HTTP/1.1") || startswith tok (codes "HTTP/1.0")

-- The fields of the line behind the method.
unfoldable pub parse_fields : List ℕ → Option Target
parse_fields line = elim (token space line) [
  | none ↦ none
  | some (uri, rest) ↦ elim (token space rest) [
    | none ↦ none
    | some (version, rest') ↦
        if known_version version
        then elim (token space rest') [
          | none ↦ uri_parse uri
          | some (tok, more) ↦ if same_text tok crlf then uri_parse uri else none
        ]
        else none
  ]
]

unfoldable pub parse_reqline : List ℕ → Option Target
parse_reqline req = elim (token space req) [
  | none ↦ none
  | some (method, rest) ↦ if same_text method (codes "GET") then parse_fields rest else none
]

-- The line breaks are added to the texts that the source writes.
abbrev pub line : List ℕ → List ℕ
line text = text ++ crlf

abbrev pub own_headers : List ℕ → List (List ℕ)
own_headers user_agent =
    line (codes "User-Agent: " ++ user_agent)
    ∷ line (codes "Connection: close")
    ∷ line (codes "Proxy-Connection: close")
    ∷ []

-- The headers that the proxy sends in its own words.
abbrev pub replaced : List ℕ → Bool
replaced text =
    startswithcase text (codes "User-Agent: ")
    || startswithcase text (codes "Connection: ")
    || startswithcase text (codes "Proxy-Connection: ")

abbrev pub names_host : List ℕ → Bool
names_host text = startswithcase text (codes "Host: ")

-- The loop of `forward_request` over the lines that `getline` returns: what is sent, and `host_sent`.
unfoldable pub forward_headers : List (List ℕ) → Bool → List (List ℕ) × Bool
unfolding startswithcase same_text
forward_headers [] host_sent = ([], host_sent)
forward_headers (text ∷ more) host_sent =
    let skipped = forward_headers more host_sent in
    let (sent, h) = forward_headers more (host_sent || names_host text) in
    if replaced text
    then skipped
    else if same_text text crlf
    then ([], host_sent || names_host text)
    else (text ∷ sent, h)

-- `forward_request` where every write succeeds: the lines that the server gets.
unfoldable pub forward_request : List ℕ → List ℕ → List ℕ → List (List ℕ) → List (List ℕ)
unfolding forward_headers
forward_request user_agent host loc lines =
    let (sent, host_sent) = forward_headers lines false in
    line (codes "GET /" ++ loc ++ codes " HTTP/1.0")
    ∷ (own_headers user_agent
        ++ (sent ++ ((if host_sent then [] else line (codes "Host: " ++ host) ∷ []) ++ crlf ∷ [])))
