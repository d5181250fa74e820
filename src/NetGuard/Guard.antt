-- ===== src/NetGuard/Guard.antt =====
-- Guard of guard.go. The parser of URLs, net.SplitHostPort, the parser of addresses and the resolver
-- are Go's; they are the fields of `Net`. The context only bounds the time of a lookup.
use mcp_swagger.Prelude.{
  ℕ, Bool, true, false, not, ◌&&◌, ◌||◌, Option, none, some, List, [], ◌∷◌, ◌++◌, any, ◌==◌, Result,
  ok, err, if◌then◌else◌,
}
use mcp_swagger.Text.{
  Text, codes, text_eq, is_empty, to_lower, trim_space, has_prefix, has_suffix, trim_prefix, member,
}
use mcp_swagger.NetGuard.Address.{Addr, unmap, is_blocked_ip}

pub record Url : Type 0 where
  pub scheme : Text
  pub hostname : Text

-- `none` stands for an error.
pub record Net : Type 0 where
  pub parse_url : Text → Option Url
  pub split_host_port : Text → Option Text
  pub parse_addr : Text → Option Addr
  pub lookup_net_ip : Text → Option (List Addr)

pub data GuardError : Type 0 where
  invalid_url host_not_allowed private_network host_resolution : GuardError

pub record Config : Type 0 where
  pub allowed_hosts : List Text
  pub block_private_networks : Bool

pub record Guard : Type 0 where
  pub allowed_exact : List Text
  pub allowed_suffix : List Text
  pub block_private : Bool

-- strings.Contains(value, "://")
unfoldable pub contains_scheme : Text → Bool
contains_scheme [] = false
contains_scheme (c ∷ s) = has_prefix (c ∷ s) (codes "://") || contains_scheme s

-- strings.Trim(value, "[]")
abbrev is_bracket : ℕ → Bool
is_bracket c = (c == b'[') || (c == b']')

unfoldable pub trim_brackets_left : Text → Text
trim_brackets_left [] = []
trim_brackets_left (c ∷ s) = if is_bracket c then trim_brackets_left s else c ∷ s

unfoldable pub trim_brackets_right : Text → Text
trim_brackets_right [] = []
trim_brackets_right (c ∷ s) =
    let rest = trim_brackets_right s in if is_bracket c && is_empty rest then [] else c ∷ rest

-- What stands before the last "%", if one stands at all.
unfoldable pub before_last_percent : Text → Option Text
before_last_percent [] = none
before_last_percent (c ∷ s) = elim (before_last_percent s) [
  | some before ↦ some (c ∷ before)
  | none ↦ if c == b'%' then some [] else none
]

-- if i := strings.LastIndex(value, "%"); i > 0 { value = value[:i] }
unfoldable pub cut_zone : Text → Text
unfolding before_last_percent
cut_zone value = elim (before_last_percent value) [
  | none ↦ value
  | some before ↦ if is_empty before then value else before
]

abbrev hostname_or : Text → Option Url → Text
hostname_or value none = value
hostname_or value (some url) = url.hostname

abbrev text_or : Text → Option Text → Text
text_or value none = value
text_or value (some host) = host

module _ (net : Net) where
  unfoldable pub normalize_host : Text → Text
  unfolding contains_scheme trim_brackets_left trim_brackets_right cut_zone
  normalize_host raw =
      let value = trim_space (to_lower raw) in
      let value₁ =
        (if contains_scheme value then hostname_or value (net.parse_url value) else value) in
      let value₂ = text_or value₁ (net.split_host_port value₁) in
      if is_empty value
      then []
      else trim_space (cut_zone (trim_brackets_right (trim_brackets_left value₂)))

  -- The two results of normalizeAllowlist.
  unfoldable pub exact_hosts : List Text → List Text
  exact_hosts [] = []
  exact_hosts (entry ∷ entries) =
      let rest = exact_hosts entries in
      let item = trim_space (to_lower entry) in
      let value = normalize_host item in
      if is_empty item
      then rest
      else if has_prefix item (codes "*.")
      then rest
      else if is_empty value
      then rest
      else value ∷ rest

  unfoldable pub suffix_hosts : List Text → List Text
  suffix_hosts [] = []
  suffix_hosts (entry ∷ entries) =
      let rest = suffix_hosts entries in
      let item = trim_space (to_lower entry) in
      let value = normalize_host (trim_prefix item (codes "*.")) in
      if is_empty item
      then rest
      else if has_prefix item (codes "*.")
      then (if is_empty value then rest else value ∷ rest)
      else rest

  unfoldable pub new_guard : Config → Guard
  unfolding exact_hosts suffix_hosts
  new_guard cfg = record {
    allowed_exact = exact_hosts cfg.allowed_hosts;
    allowed_suffix = suffix_hosts cfg.allowed_hosts;
    block_private = cfg.block_private_networks;
  }

abbrev pub is_nil : List Text → Bool
is_nil [] = true
is_nil (x ∷ xs) = false

-- The test of a wildcard entry.
unfoldable pub matches_suffix : Text → Text → Bool
matches_suffix host suffix = text_eq host suffix || has_suffix host (codes "." ++ suffix)

unfoldable pub is_allowed : Guard → Text → Bool
unfolding matches_suffix
is_allowed g host =
    (is_nil g.allowed_exact && is_nil g.allowed_suffix)
    || member host g.allowed_exact
    || any (matches_suffix host) g.allowed_suffix

module _ (net : Net) where
  abbrev pub check_addrs : Option (List Addr) → Result GuardError (Unit {0})
  check_addrs none = err host_resolution
  check_addrs (some []) = err host_resolution
  check_addrs (some (ip ∷ ips)) =
      if any (λ addr. is_blocked_ip (unmap addr)) (ip ∷ ips) then err private_network else ok tt

  abbrev pub check_host : Text → Option Addr → Result GuardError (Unit {0})
  check_host host (some ip) = if is_blocked_ip (unmap ip) then err private_network else ok tt
  check_host host none = check_addrs (net.lookup_net_ip host)

  unfoldable pub validate_host : Guard → Text → Result GuardError (Unit {0})
  validate_host g host =
      let normalized = normalize_host net host in
      if is_empty normalized
      then err invalid_url
      else if not (is_allowed g normalized)
      then err host_not_allowed
      else if not g.block_private
      then ok tt
      else check_host normalized (net.parse_addr normalized)

  unfoldable pub validate_parsed : Guard → Option Url → Result GuardError (Unit {0})
  unfolding validate_host
  validate_parsed g none = err invalid_url
  validate_parsed g (some url) =
      let scheme = to_lower (trim_space url.scheme) in
      let host = trim_space url.hostname in
      if not (text_eq scheme (codes "http")) && not (text_eq scheme (codes "https"))
      then err invalid_url
      else if is_empty host
      then err invalid_url
      else validate_host g host

  unfoldable pub validate_url : Guard → Text → Result GuardError (Unit {0})
  validate_url g raw_url =
      let trimmed = trim_space raw_url in
      if is_empty trimmed then err invalid_url else validate_parsed g (net.parse_url trimmed)
