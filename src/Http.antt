-- ===== src/Http.antt =====
-- Headers and methods as gateflow/proxy.py handles them. The server gives the names of a request's
-- headers in lower case, each once; names and methods are ASCII (RFC 9110).
pub mod Laws
use gate_flow.Prelude.{
  ℕ, ◌+◌, ◌-◌, Bool, true, false, ◌&&◌, ◌||◌, Option, none, some, List, [], ◌∷◌, map, leb, any,
  if◌then◌else◌,
}
use gate_flow.Prelude.Text.{Text, codes, same}

abbrev pub Headers : Type 0
Headers = List (Text × Text)

-- `s.lower()` and `s.upper()`.
unfoldable pub lower_char : ℕ → ℕ
lower_char c = if leb b'A' c && leb c b'Z' then c + 32 else c

unfoldable pub upper_char : ℕ → ℕ
upper_char c = if leb b'a' c && leb c b'z' then c - 32 else c

abbrev pub lower : Text → Text
lower s = map lower_char s

abbrev pub upper : Text → Text
upper s = map upper_char s

-- `request.headers.get(name)`, which does not look at the case.
unfoldable pub header : Text → Headers → Option Text
header name [] = none
header name ((k, v) ∷ hs) = if same (lower k) (lower name) then some v else header name hs

-- `headers.pop(name, None)` of a dictionary.
unfoldable pub pop : Text → Headers → Headers
pop name [] = []
pop name ((k, v) ∷ hs) = let rest = pop name hs in if same k name then hs else (k, v) ∷ rest

-- `headers[name] = value` of a dictionary.
unfoldable pub put : Text → Text → Headers → Headers
put name value [] = (name, value) ∷ []
put name value ((k, v) ∷ hs) =
    let rest = put name value hs in if same k name then (k, value) ∷ hs else (k, v) ∷ rest

-- The names that handle_request does not forward.
abbrev pub hop_by_hop : List Text
hop_by_hop =
    codes "connection"
    ∷ codes "keep-alive"
    ∷ codes "proxy-authenticate"
    ∷ codes "proxy-authorization"
    ∷ codes "te"
    ∷ codes "trailers"
    ∷ codes "transfer-encoding"
    ∷ codes "upgrade"
    ∷ codes "content-length"
    ∷ []

unfoldable pub is_hop_by_hop : Text → Bool
is_hop_by_hop name = any (same (lower name)) hop_by_hop

-- The loop that removes them; each name stands once, so a removal by name is one of the entry.
unfoldable pub forwardable : Headers → Headers
forwardable [] = []
forwardable ((k, v) ∷ hs) =
    let rest = forwardable hs in if is_hop_by_hop k then rest else (k, v) ∷ rest

-- The headers of the downstream request.
unfoldable pub forwarded : (request_id user_id tier : Text) → Headers → Headers
forwarded request_id user_id tier hs =
    put (codes "X-User-Tier") tier
      (put (codes "X-User-Id") user_id (put (codes "X-Request-ID") request_id (forwardable hs)))
