-- ===== src/Rest/Endpoints.antt =====
-- The endpoints that `NewEndpoint` makes.
use vfkit.Base.{
  ℕ, ◌≤◌, [], ◌∷◌, ◌++◌, ◌≡◌, ◌≢◌, ◌⊎◌, refl, sym, arith, Result, ok, >>=-eq-ok, checked-eq-ok,
  length, ltb-eq-false, append-nil,
}
use vfkit.Text.{Text, codes}
use vfkit.Rest.{
  Url, ServiceScheme, tcp, unix, no_service, http, Endpoint, check_uri, to_rest_scheme,
  parse_restful_uri, new_endpoint, to_cmd_line,
}

-- A TCP endpoint has a host and no path, a unix endpoint a path that fits into a socket address and
-- no host, and no endpoint has the scheme HTTP.
abbrev pub IsUsable : ServiceScheme → Text → Text → Type 0
IsUsable tcp host path = (host ≢ []) × (path ≡ [])
IsUsable unix host path = (host ≡ []) × (path ≢ []) × (length path ≤ 103)
IsUsable no_service host path = Unit
IsUsable http host path = ⊥

check_uri-IsUsable :
    (scheme : ServiceScheme) (uri : Url)
    → scheme ≢ http
    → check_uri scheme uri ≡ ok tt
    → IsUsable scheme uri.host uri.path
unfolding check_uri
check_uri-IsUsable tcp uri ne e = (ground arith, ground arith)
check_uri-IsUsable unix uri ne e = (ground arith, ground arith, ground arith)
check_uri-IsUsable no_service uri ne e = tt
check_uri-IsUsable http uri ne e = absurd (ne refl)

to_rest_scheme-ne-http :
    (s : Text) (scheme : ServiceScheme) → to_rest_scheme s ≡ ok scheme → scheme ≢ http
unfolding to_rest_scheme
to_rest_scheme-ne-http s scheme e h = ground arith

module _ (parse_request_uri : Text → Result Url) where
  -- Every endpoint that is made from a URI is usable: one for TCP has a host and no path, one for
  -- unix sockets has a path of 1 to 103 bytes and no host, and none has the scheme HTTP.
  pub new_endpoint-IsUsable :
      (input : Text) (ep : Endpoint)
      → new_endpoint parse_request_uri input ≡ ok ep
      → IsUsable ep.scheme ep.host ep.path
  unfolding new_endpoint parse_restful_uri
  new_endpoint-IsUsable input ep e =
      let (uri, parsed, rest) = >>=-eq-ok (parse_restful_uri parse_request_uri input) _ e in
      let (scheme, known, same) = >>=-eq-ok (to_rest_scheme uri.scheme) _ rest in
      let (uri', read, checked) = >>=-eq-ok (parse_request_uri input) _ parsed in
      let (scheme', known', rest') = >>=-eq-ok (to_rest_scheme uri'.scheme) _ checked in
      let (same', passed) = checked-eq-ok (ok uri') (check_uri scheme') rest' in
      let scheme_is : scheme' ≡ ep.scheme = cc in
      let host_is : uri.host ≡ ep.host = cc in
      let path_is : uri.path ≡ ep.path = cc in
      rw (sym scheme_is, sym host_is, sym path_is)
        (check_uri-IsUsable scheme' uri (to_rest_scheme-ne-http uri'.scheme scheme' known') passed)

made_endpoint :
    (parse_request_uri : Text → Result Url) (input : Text) (uri : Url) (scheme : ServiceScheme)
    → parse_request_uri input ≡ ok uri
    → to_rest_scheme uri.scheme ≡ ok scheme
    → check_uri scheme uri ≡ ok tt
    → new_endpoint parse_request_uri input
      ≡ ok (record { host = uri.host; path = uri.path; scheme = scheme })
unfolding new_endpoint parse_restful_uri
made_endpoint parse_request_uri input uri scheme p q r = rw (p, q, r, q)

unix_checked :
    (path : Text)
    → length (b'/' ∷ path) ≤ 103
    → check_uri unix (record { scheme = codes "unix"; host = []; port = []; path = b'/' ∷ path })
      ≡ ok tt
unfolding check_uri
unix_checked path h = rw (ltb-eq-false 103 (length (b'/' ∷ path)) h)

tcp_checked :
    (c : ℕ) (host port : Text)
    → port ≢ []
    → check_uri tcp (record { scheme = codes "tcp"; host = c ∷ host; port = port; path = [] })
      ≡ ok tt
unfolding check_uri
tcp_checked c host [] h = absurd (h refl)
tcp_checked c host (d ∷ port) h = refl

-- The characters of a path that a URI does not treat: no control byte, which `url.Parse` refuses,
-- and none of those that begin a part of a URI or an escape.
abbrev pub IsPlain : Text → Type 0
IsPlain [] = Unit
IsPlain (c ∷ s) = (0x20 ≤ c) × (c ≢ 0x7f) × (c ≢ b'%') × (c ≢ b'?') × (c ≢ b'#') × IsPlain s

-- A name of a host: letters, digits, dots and dashes.
abbrev pub IsName : Text → Type 0
IsName [] = Unit
IsName (c ∷ s) =
    (((b'a' ≤ c) × (c ≤ b'z')) ⊎ (((b'0' ≤ c) × (c ≤ b'9')) ⊎ ((c ≡ b'.') ⊎ (c ≡ b'-')))) × IsName s

abbrev pub IsPort : Text → Type 0
IsPort [] = Unit
IsPort (c ∷ s) = (b'0' ≤ c) × (c ≤ b'9') × IsPort s

-- What `url.ParseRequestURI` does with a plain path behind `unix://`, and with a name and a port,
-- both not empty, behind `tcp://`.
pub record IsUriParser (parse_request_uri : Text → Result Url) : Type 0 where
  pub reads_unix :
      (path : Text)
      → IsPlain path
      → parse_request_uri (codes "unix://" ++ b'/' ∷ path)
        ≡ ok (record { scheme = codes "unix"; host = []; port = []; path = b'/' ∷ path })
  pub reads_tcp :
      (name port : Text)
      → IsName name
      → name ≢ []
      → IsPort port
      → port ≢ []
      → parse_request_uri (codes "tcp://" ++ (name ++ b':' ∷ port))
        ≡ ok (record { scheme = codes "tcp"; host = name ++ b':' ∷ port; port = port; path = [] })

module _ (parse_request_uri : Text → Result Url) (laws : IsUriParser parse_request_uri) where
  -- The endpoint of a unix socket, whose path is absolute, has no control byte and none of `%`, `?`
  -- and `#`, and fits into a socket address, is written as `--restful-uri` and a URI, and that URI
  -- makes the same endpoint.
  pub unix_round_trip :
      (path : Text)
      → IsPlain path
      → length (b'/' ∷ path) ≤ 103
      → (uri : Text) × (to_cmd_line (record { host = []; path = b'/' ∷ path; scheme = unix })
          ≡ ok (codes "--restful-uri" ∷ uri ∷ []))
        × (new_endpoint parse_request_uri uri
            ≡ ok (record { host = []; path = b'/' ∷ path; scheme = unix }))
  unix_round_trip path plain fits = (
    codes "unix://" ++ b'/' ∷ path,
    unfold to_cmd_line in refl,
    made_endpoint parse_request_uri _ _ unix (laws.reads_unix path plain)
        (unfold to_rest_scheme in refl) (unix_checked path fits),
  )

  -- The endpoint of a TCP socket, with a name and a port that is not empty, is written as
  -- `--restful-uri` and a URI, and that URI makes the same endpoint.
  pub tcp_round_trip :
      (c : ℕ) (name port : Text)
      → IsName (c ∷ name)
      → IsPort port
      → port ≢ []
      → (uri : Text) × (to_cmd_line
            (record { host = c ∷ name ++ b':' ∷ port; path = []; scheme = tcp })
          ≡ ok (codes "--restful-uri" ∷ uri ∷ []))
        × (new_endpoint parse_request_uri uri
            ≡ ok (record { host = c ∷ name ++ b':' ∷ port; path = []; scheme = tcp }))
  unfolding codes
  tcp_round_trip c name port is_name is_port ne = (
    codes "tcp://" ++ c ∷ name ++ b':' ∷ port,
    unfold to_cmd_line in rw append-nil,
    made_endpoint parse_request_uri _ _ tcp (laws.reads_tcp (c ∷ name) port is_name (cc) is_port ne)
        (unfold to_rest_scheme in refl) (tcp_checked c (name ++ b':' ∷ port) port ne),
  )
