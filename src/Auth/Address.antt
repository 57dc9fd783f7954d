-- ===== src/Auth/Address.antt =====
-- The addresses of callers in gateflow/auth.py. Python's ipaddress is a parameter.
use gate_flow.Prelude.{
  ℕ, Bool, true, false, ◌&&◌, ◌||◌, not, Option, none, some, List, [], ◌∷◌, reverse, map, leb, ◌==◌,
  any, if◌then◌else◌,
}
use gate_flow.Prelude.Text.{Text, codes, same}
use gate_flow.Prelude.Split.{split_on}
use gate_flow.Prelude.Strip.{strip}
use gate_flow.Http.{Headers, header}

-- White space of Python's `str.strip()`.
unfoldable pub is_whitespace : ℕ → Bool
is_whitespace c =
    (leb 9 c && leb c 13)
    || (leb 28 c && leb c 32)
    || c == 0x85
    || c == 0xa0
    || c == 0x1680
    || (leb 0x2000 c && leb c 0x200a)
    || c == 0x2028
    || c == 0x2029
    || c == 0x202f
    || c == 0x205f
    || c == 0x3000

abbrev pub comma : ℕ
comma = b','

-- `[s for s in texts if s]`
unfoldable pub non_empty : List Text → List Text
non_empty [] = []
non_empty ([] ∷ ts) = non_empty ts
non_empty ((c ∷ s) ∷ ts) = (c ∷ s) ∷ non_empty ts

-- `[s.strip() for s in text.split(",") if s.strip()]`
unfoldable pub entries : Text → List Text
entries text = non_empty (map (strip is_whitespace) (split_on comma text))

abbrev pub wildcard : Text
wildcard = codes "*"

-- `is_address ip`: ip_address takes the text. `in_network ip rule`: ip_network takes the rule, and
-- the address is in it; a ValueError is `false`, as its handlers go on to the next rule.
pub record Addresses : Type 0 where
  pub is_address : Text → Bool
  pub in_network : Text → Text → Bool

unfoldable pub last_of : (Text → Bool) → List Text → Option Text
last_of p [] = none
last_of p (t ∷ ts) = if p t then some t else last_of p ts

module _ (addresses : Addresses) where
  -- One round of the loop over the rules.
  unfoldable pub matches : Text → Text → Bool
  matches ip [] = false
  matches ip (c ∷ cidr) = addresses.in_network ip (c ∷ cidr)

  unfoldable pub is_trusted_proxy_ip : Text → Text → Bool
  is_trusted_proxy_ip ip [] = false
  is_trusted_proxy_ip ip (c ∷ cs) =
      same (strip is_whitespace (c ∷ cs)) wildcard
      || (addresses.is_address ip
          && any (λ cidr. matches ip (strip is_whitespace cidr)) (split_on comma (c ∷ cs)))

  abbrev pub or_else : Option Text → Text → Text
  or_else none t = t
  or_else (some s) t = s

  -- What `_resolve_forwarded_for` does with the addresses of the header.
  unfoldable pub choose : Text → List Text → Option Text
  choose allowed [] = none
  choose allowed (first ∷ ips) = some (
      if same (strip is_whitespace allowed) wildcard
      then first
      else or_else (last_of (λ ip. not (is_trusted_proxy_ip ip allowed)) (reverse (first ∷ ips)))
          first)

  unfoldable pub resolve_forwarded_for : Text → Text → Option Text
  resolve_forwarded_for forwarded [] = none
  resolve_forwarded_for forwarded (c ∷ cs) = choose (c ∷ cs) (entries forwarded)

  -- `get_client_ip` on a peer and the X-Forwarded-For header.
  unfoldable pub ip_of : Text → Text → Option Text → Text
  ip_of peer allowed none = peer
  ip_of peer allowed (some forwarded) =
      if not (same forwarded []) && is_trusted_proxy_ip peer allowed
      then or_else (resolve_forwarded_for forwarded allowed) peer
      else peer

  -- The peer is `none` if the request has no client host.
  unfoldable pub get_client_ip : Option Text → Text → Headers → Option Text
  get_client_ip none allowed headers = none
  get_client_ip (some peer) [] headers = some peer
  get_client_ip (some peer) (c ∷ cs) headers =
      some (ip_of peer (c ∷ cs) (header (codes "X-Forwarded-For") headers))

  unfoldable pub ruled : Text → List Text → Bool
  ruled ip [] = true
  ruled ip (rule ∷ []) =
      same rule wildcard || (addresses.is_address ip && addresses.in_network ip rule)
  ruled ip (rule ∷ next ∷ rules) =
      addresses.is_address ip && any (addresses.in_network ip) (rule ∷ next ∷ rules)

  unfoldable pub is_ip_allowed : Text → Text → Bool
  is_ip_allowed ip allowed_ips = ruled ip (entries allowed_ips)
