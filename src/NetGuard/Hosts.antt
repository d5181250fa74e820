-- ===== src/NetGuard/Hosts.antt =====
-- Which hosts and URLs the guard lets through.
use mathlib.Core.List.{reverse, reverse-reverse, reverse-append}
use mcp_swagger.Prelude.{
  ◌≡◌, ◌≢◌, refl, sym, ap, ◌∙◌, ◌↔◌, ◌⊎◌, inl, inr, true, false, Option, none, some, List, [], ◌∷◌,
  ◌++◌, arith, any, ◌==◌, ==_iff, ok, All, &&_true, Bool-cases,
}
use mcp_swagger.Text.{Text, codes, text_eq, to_lower, trim_space, has_prefix, has_suffix}
use mcp_swagger.Text.Laws.{text_eq_iff}
use mcp_swagger.NetGuard.Address.{Addr, unmap, is_blocked_ip}
use mcp_swagger.NetGuard.Guard.{
  Url, Net, Guard, normalize_host, is_allowed, matches_suffix, check_addrs, check_host,
  validate_host, validate_parsed, validate_url,
}

IsPrefixOf : Text → Text → Type 0
IsPrefixOf p s = (rest : Text) × (s ≡ p ++ rest)

prefix_found : (s p : Text) → has_prefix s p ≡ true → IsPrefixOf p s
unfolding has_prefix IsPrefixOf
prefix_found s [] h = (s, refl)
prefix_found [] (p ∷ ps) h = absurd (cc)
prefix_found (c ∷ s) (p ∷ ps) h =
    let parts = &&_true (c == p) (has_prefix s ps) h in
    let (rest, e) = prefix_found s ps parts.1 in (rest, cc ((==_iff c p).0 parts.0))

has_prefix-append : (p rest : Text) → has_prefix (p ++ rest) p ≡ true
unfolding has_prefix
has_prefix-append [] rest = refl
has_prefix-append (c ∷ p) rest = ground (arith, has_prefix-append p rest)

-- strings.HasSuffix finds the texts that end in the suffix, and only those.
has_suffix_iff : (s p : Text) → (has_suffix s p ≡ true) ↔ ((front : Text) × (s ≡ front ++ p))
unfolding has_suffix IsPrefixOf
has_suffix_iff s p = (
  λ h.
      let (rest, e) = prefix_found (reverse s) (reverse p) h in
      (
        reverse rest,
        sym (reverse-reverse s)
            ∙ ap reverse e
            ∙ reverse-append (reverse p) rest
            ∙ ap (λ (t : Text). reverse rest ++ t) (reverse-reverse p),
      ),
  λ (front, e). rw (e, reverse-append front p) (has_prefix-append (reverse p) (reverse front)),
)

-- The test of a wildcard entry accepts its domain and the names that end in a dot and the domain,
-- and no other name that merely ends in the same letters.
pub matches_suffix_iff :
    (host suffix : Text)
    → (matches_suffix host suffix ≡ true)
      ↔ ((host ≡ suffix) ⊎ ((front : Text) × (host ≡ front ++ (codes "." ++ suffix))))
unfolding matches_suffix
matches_suffix_iff host suffix = (
  λ h. elim (Bool-cases (text_eq host suffix)) [
    | inl same ↦ inl ((text_eq_iff host suffix).0 same)
    | inr other ↦ inr ((has_suffix_iff host (codes "." ++ suffix)).0 (rw other at h))
  ],
  λ cases. elim cases [
    | inl same ↦ rw ((text_eq_iff host suffix).1 same)
    | inr tail ↦ ground (arith, (has_suffix_iff host (codes "." ++ suffix)).1 tail)
  ],
)

abbrev pub IsOpenAddr : Addr → Type 0
IsOpenAddr addr = is_blocked_ip (unmap addr) ≡ false

All-open :
    (addrs : List Addr)
    → (any (λ addr. is_blocked_ip (unmap addr)) addrs ≡ false) ↔ All IsOpenAddr addrs
unfolding any
All-open [] = (λ h. tt, λ h. refl)
All-open (addr ∷ addrs) =
    (λ h. ground (arith, (All-open addrs).0), λ h. ground (arith, h, (All-open addrs).1))

module _ (net : Net) where
  -- Every address that the host stands for, by itself or by the resolver, is open, and there is one.
  pub data ReachesOpen (host : Text) : Type 0 where
    literal : (ip : Addr) → net.parse_addr host ≡ some ip → IsOpenAddr ip → ReachesOpen host
    resolved :
        (ip : Addr) (ips : List Addr)
        → net.parse_addr host ≡ none
        → net.lookup_net_ip host ≡ some (ip ∷ ips)
        → All IsOpenAddr (ip ∷ ips)
        → ReachesOpen host

  check_addrs_ok :
      (host : Text) (o : Option (List Addr))
      → net.parse_addr host ≡ none
      → net.lookup_net_ip host ≡ o
      → check_addrs net o ≡ ok tt
      → ReachesOpen host
  check_addrs_ok host none p e h = absurd (cc)
  check_addrs_ok host (some []) p e h = absurd (cc)
  check_addrs_ok host (some (ip ∷ ips)) p e h =
      resolved ip ips p e ((All-open (ip ∷ ips)).0 (ground arith))

  check_host_ok :
      (host : Text) (o : Option Addr)
      → net.parse_addr host ≡ o
      → check_host net host o ≡ ok tt
      → ReachesOpen host
  check_host_ok host (some ip) e h = literal ip e (ground arith)
  check_host_ok host none e h = check_addrs_ok host (net.lookup_net_ip host) e refl h

  open_check_host :
      (host : Text) → ReachesOpen host → check_host net host (net.parse_addr host) ≡ ok tt
  open_check_host host (literal ip e v) = rw e (ground arith)
  open_check_host host (resolved ip ips e f v) =
      rw (e, f) (ground (arith, (All-open (ip ∷ ips)).1 v))

  -- What the guard asks of a normalised host.
  pub record IsPermitted (g : Guard) (host : Text) : Type 0 where
    pub named : host ≢ []
    pub allowed : is_allowed g host ≡ true
    pub reached : (g.block_private ≡ false) ⊎ ReachesOpen host

  -- A host passes exactly when its normal form is not empty, the allow list lets it through and,
  -- if private networks are blocked, it is an open address or resolves to open addresses only, at
  -- least one.
  pub validate_host_ok :
      (g : Guard) (host : Text)
      → (validate_host net g host ≡ ok tt) ↔ IsPermitted g (normalize_host net host)
  unfolding validate_host
  validate_host_ok g host =
      let n = normalize_host net host in
      (
        λ h. record {
          named = ground arith;
          allowed = ground arith;
          reached = elim (Bool-cases g.block_private) [
            | inl blocks ↦ inr (check_host_ok n (net.parse_addr n) refl (ground arith))
            | inr free ↦ inl free
          ];
        },
        λ v. elim v.reached [
          | inl free ↦ ground (arith, v.named, v.allowed)
          | inr reaches ↦ ground (arith, v.named, v.allowed, open_check_host n reaches)
        ],
      )

  -- What the guard asks of a parsed URL.
  pub record IsPermittedUrl (g : Guard) (url : Url) : Type 0 where
    pub web :
        (to_lower (trim_space url.scheme) ≡ codes "http")
        ⊎ (to_lower (trim_space url.scheme) ≡ codes "https")
    pub named : trim_space url.hostname ≢ []
    pub permitted : IsPermitted g (normalize_host net (trim_space url.hostname))

  parsed_ok :
      (g : Guard) (o : Option Url)
      → validate_parsed net g o ≡ ok tt
      → (url : Url) × (o ≡ some url) × IsPermittedUrl g url
  unfolding validate_parsed
  parsed_ok g none h = absurd (cc)
  parsed_ok g (some url) h =
      let scheme = to_lower (trim_space url.scheme) in
      let http = text_eq_iff scheme (codes "http") in
      let https = text_eq_iff scheme (codes "https") in
      (
        url,
        refl,
        record {
          web = ground (arith, http, https);
          named = ground arith;
          permitted = (validate_host_ok g (trim_space url.hostname)).0 (ground arith);
        },
      )

  ok_parsed :
      (g : Guard) (url : Url) → IsPermittedUrl g url → validate_parsed net g (some url) ≡ ok tt
  unfolding validate_parsed
  ok_parsed g url v =
      let scheme = to_lower (trim_space url.scheme) in
      ground (
        arith,
        text_eq_iff scheme (codes "http"),
        text_eq_iff scheme (codes "https"),
        v.web,
        v.named,
        (validate_host_ok g (trim_space url.hostname)).1 v.permitted,
      )

  -- A URL passes exactly when it is not blank and parses to one whose scheme is http or https,
  -- whose host is not blank, and whose host passes.
  pub validate_url_ok :
      (g : Guard) (raw_url : Text)
      → (validate_url net g raw_url ≡ ok tt) ↔ (
          (trim_space raw_url ≢ [])
          × ((url : Url) × (net.parse_url (trim_space raw_url) ≡ some url) × IsPermittedUrl g url))
  unfolding validate_url
  validate_url_ok g raw_url = (
    λ h. (ground arith, parsed_ok g (net.parse_url (trim_space raw_url)) (ground arith)),
    λ (given, (url, e, v)). ground (arith, given, e, ok_parsed g url v),
  )
