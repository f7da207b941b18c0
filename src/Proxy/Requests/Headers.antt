-- ===== src/Proxy/Requests/Headers.antt =====
-- Which headers `forward_request` sends.
use csapp_3e_study.Base.{
  ℕ, ◌≡◌, ◌≢◌, ◌∙◌, refl, ap, sym, subst, arith, Bool, true, false, ◌||◌, List, [], ◌∷◌, ◌++◌,
  if◌then◌else◌, Bool-cases, inl, inr,
}
use csapp_3e_study.Base.Texts.{codes, same_text, same_text_iff, to_lower}
use csapp_3e_study.Proxy.Requests.{
  crlf, line, startswithcase, replaced, names_host, forward_headers, forward_request,
}

-- The lines before the first that is empty, less those that the proxy replaces.
abbrev kept_headers : List (List ℕ) → List (List ℕ)
kept_headers [] = []
kept_headers (text ∷ more) =
    if same_text text crlf
    then []
    else if replaced text
    then kept_headers more
    else text ∷ kept_headers more

abbrev any_host : List (List ℕ) → Bool
any_host [] = false
any_host (text ∷ more) = names_host text || any_host more

empty_line :
    (text : List ℕ)
    → same_text text crlf ≡ true
    → (replaced text ≡ false) × (names_host text ≡ false)
unfolding startswithcase
empty_line text e = rw ((same_text_iff text crlf).0 e) (refl, refl)

or_false : (b : Bool) → (b || false) ≡ b
or_false true = refl
or_false false = refl

or_assoc : (a b c : Bool) → ((a || b) || c) ≡ (a || (b || c))
or_assoc true b c = refl
or_assoc false b c = refl

-- The cases of one line.
module _ (text : List ℕ) (more : List (List ℕ)) (host_sent : Bool) where
  forward_replaced :
      replaced text ≡ true
      → forward_headers (text ∷ more) host_sent ≡ forward_headers more host_sent
  unfolding forward_headers
  forward_replaced e = rw e refl

  forward_empty :
      replaced text ≡ false
      → same_text text crlf ≡ true
      → forward_headers (text ∷ more) host_sent ≡ ([], host_sent || names_host text)
  unfolding forward_headers
  forward_empty e e' = rw (e, e') refl

  forward_kept :
      replaced text ≡ false
      → same_text text crlf ≡ false
      → forward_headers (text ∷ more) host_sent ≡ (
        text ∷ (forward_headers more (host_sent || names_host text)).0,
        (forward_headers more (host_sent || names_host text)).1,
      )
  unfolding forward_headers
  forward_kept e e' = rw (e, e') refl

abbrev Forwarded : List (List ℕ) → Bool → List (List ℕ) × Bool → Type 0
Forwarded lines host_sent r =
    (r.0 ≡ kept_headers lines) × (r.1 ≡ (host_sent || any_host (kept_headers lines)))

-- The headers that `forward_request` sends on are the lines before the empty one, less those that it
-- replaces; it takes the host for sent exactly if one of them names it, or it was sent before.
forward_headers_lem :
    (lines : List (List ℕ)) (host_sent : Bool)
    → Forwarded lines host_sent (forward_headers lines host_sent)
unfolding forward_headers
forward_headers_lem [] host_sent = (refl, sym (or_false host_sent))
forward_headers_lem (text ∷ more) host_sent = elim (Bool-cases (same_text text crlf)) [
  | inl empty ↦
      let (new, unnamed) = empty_line text empty in
      subst (Forwarded (text ∷ more) host_sent) (sym (forward_empty text more host_sent new empty))
        (rw empty (refl, ap (λ b. host_sent || b) unnamed))
  | inr full ↦ elim (Bool-cases (replaced text)) [
    | inl old ↦
        subst (Forwarded (text ∷ more) host_sent) (sym (forward_replaced text more host_sent old))
          (rw (full, old) (forward_headers_lem more host_sent))
    | inr new ↦
        let (sent, known) = forward_headers_lem more (host_sent || names_host text) in
        subst (Forwarded (text ∷ more) host_sent) (sym (forward_kept text more host_sent new full))
          (rw (full, new)
            (
              ap (λ l. text ∷ l) sent,
              known ∙ or_assoc host_sent (names_host text) (any_host (kept_headers more)),
            ))
  ]
]

-- Whether a line starts with one of some names, of whichever case.
abbrev pub starts_one : List (List ℕ) → List ℕ → Bool
starts_one [] text = false
starts_one (name ∷ names) text = startswithcase text name || starts_one names text

abbrev pub before_blank : List (List ℕ) → List (List ℕ)
before_blank [] = []
before_blank (text ∷ more) =
    let rest = before_blank more in if same_text text crlf then [] else text ∷ rest

abbrev pub less : List (List ℕ) → List (List ℕ) → List (List ℕ)
less names [] = []
less names (text ∷ more) =
    let rest = less names more in if starts_one names text then rest else text ∷ rest

abbrev pub any_named : List ℕ → List (List ℕ) → Bool
any_named name [] = false
any_named name (text ∷ more) = startswithcase text name || any_named name more

abbrev pub own_names : List (List ℕ)
own_names = codes "User-Agent: " ∷ codes "Connection: " ∷ codes "Proxy-Connection: " ∷ []

three : (a b c : Bool) → (a || (b || (c || false))) ≡ (a || b || c)
three true b c = refl
three false true c = refl
three false false true = refl
three false false false = refl

own_replaced : (text : List ℕ) → starts_one own_names text ≡ replaced text
own_replaced text =
    three (startswithcase text (codes "User-Agent: ")) (startswithcase text (codes "Connection: "))
      (startswithcase text (codes "Proxy-Connection: "))

other_letter :
    (c : ℕ) (cs : List ℕ) (p : ℕ) (ps : List ℕ) (q : ℕ) (qs : List ℕ)
    → startswithcase (c ∷ cs) (p ∷ ps) ≡ true
    → to_lower p ≢ to_lower q
    → startswithcase (c ∷ cs) (q ∷ qs) ≡ false
unfolding startswithcase
other_letter c cs p ps q qs h n = ground (arith, h, n)

no_name :
    (text : List ℕ)
    → startswithcase text (codes "User-Agent: ") ≡ false
    → startswithcase text (codes "Connection: ") ≡ false
    → startswithcase text (codes "Proxy-Connection: ") ≡ false
    → replaced text ≡ false
no_name text a b c = rw (a, b, c) refl

clash : ◌≡◌ {A = Bool} true false → ⊥
clash e = cc

-- The line of the host is none of the proxy's own.
replaced_hostless : (text : List ℕ) → replaced text ≡ true → names_host text ≡ false
unfolding startswithcase
replaced_hostless [] h = refl
replaced_hostless (c ∷ cs) h = elim (Bool-cases (names_host (c ∷ cs))) [
  | inr e ↦ e
  | inl e ↦
      let user = other_letter c cs 72 (codes "ost: ") 85 (codes "ser-Agent: ") e (omega arith) in
      let conn = other_letter c cs 72 (codes "ost: ") 67 (codes "onnection: ") e (omega arith) in
      let prox =
        other_letter c cs 72 (codes "ost: ") 80 (codes "roxy-Connection: ") e (omega arith) in
      absurd (clash (sym h ∙ no_name (c ∷ cs) user conn prox))
]

kept-less : (lines : List (List ℕ)) → kept_headers lines ≡ less own_names (before_blank lines)
kept-less [] = refl
kept-less (text ∷ more) = elim (Bool-cases (same_text text crlf)) [
  | inl empty ↦ rw empty refl
  | inr full ↦ elim (Bool-cases (replaced text)) [
    | inl old ↦ rw (full, own_replaced text, old) (kept-less more)
    | inr new ↦ rw (full, own_replaced text, new) (ap (λ l. text ∷ l) (kept-less more))
  ]
]

kept_host :
    (lines : List (List ℕ))
    → any_host (kept_headers lines) ≡ any_named (codes "Host: ") (before_blank lines)
kept_host [] = refl
kept_host (text ∷ more) = elim (Bool-cases (same_text text crlf)) [
  | inl empty ↦ rw empty refl
  | inr full ↦ elim (Bool-cases (replaced text)) [
    | inl old ↦ rw (full, old, replaced_hostless text old) (kept_host more)
    | inr new ↦ rw (full, new) (ap (λ b. names_host text || b) (kept_host more))
  ]
]

-- The request that the server gets, for a location and a host: the request line in HTTP/1.0; the
-- proxy's own User-Agent, Connection and Proxy-Connection; the lines of the browser before the first
-- empty one, in order, less those that start with one of these three names, whatever their case; a Host
-- line exactly if the browser sent none before the empty line; and the empty line.
pub forward_request_lem :
    (user_agent host loc : List ℕ) (lines : List (List ℕ))
    → forward_request user_agent host loc lines
      ≡ line (codes "GET /" ++ loc ++ codes " HTTP/1.0")
        ∷ line (codes "User-Agent: " ++ user_agent)
        ∷ line (codes "Connection: close")
        ∷ line (codes "Proxy-Connection: close")
        ∷ (less own_names (before_blank lines)
            ++ ((if any_named (codes "Host: ") (before_blank lines)
                  then []
                  else line (codes "Host: " ++ host) ∷ [])
                ++ crlf ∷ []))
unfolding forward_request
forward_request_lem user_agent host loc lines =
    let (sent, known) = forward_headers_lem lines false in
    rw (sent, known, kept_host lines, kept-less lines) refl
