-- ===== src/NetGuard/Examples.antt =====
-- Tests of the guard, and its theorems on a small network.
use mcp_swagger.Prelude.{◌≡◌, refl, true, none, some, [], ◌∷◌, arith, any, ok, err, if◌then◌else◌}
use mcp_swagger.Text.{
  codes, text_eq, is_space, to_lower, lower_char, trim_space, has_prefix, has_suffix, trim_prefix,
  member,
}
use mcp_swagger.NetGuard.Address.{v4, unmap, is_blocked_ip}
use mcp_swagger.NetGuard.Ranges.{dotted, is_blocked_ip-IsInternal4}
use mcp_swagger.NetGuard.Guard.{
  Url, Net, Guard, new_guard, host_not_allowed, private_network, is_allowed, normalize_host,
  validate_host, validate_url, validate_parsed,
}
use mcp_swagger.NetGuard.Hosts.{IsPermitted, IsPermittedUrl, validate_host_ok, validate_url_ok}

-- A network in which every name resolves to 93.184.216.34, but "intra.example.com" to 10.0.0.7.
abbrev small_net : Net
small_net = record {
  parse_url = λ url.
      if text_eq url (codes "https://api.example.com/v1")
      then some (record { scheme = codes "https"; hostname = codes "api.example.com" })
      else none;
  split_host_port = λ host. none;
  parse_addr = λ host. none;
  lookup_net_ip = λ host.
      if text_eq host (codes "intra.example.com")
      then some (v4 (dotted 10 0 0 7) ∷ [])
      else some (v4 (dotted 93 184 216 34) ∷ []);
}

abbrev guard : Guard
guard = record {
  allowed_exact = [];
  allowed_suffix = codes "example.com" ∷ [];
  block_private = true;
}

made_guard :
    new_guard small_net
      (record { allowed_hosts = codes " *.Example.com" ∷ []; block_private_networks = true })
    ≡ guard
unfolding new_guard normalize_host trim_space is_space to_lower lower_char has_prefix trim_prefix
made_guard = refl

intra_is_refused : validate_host small_net guard (codes "Intra.example.com") ≡ err private_network
unfolding validate_host normalize_host is_allowed member any text_eq has_suffix has_prefix
    is_blocked_ip unmap trim_space is_space to_lower lower_char
intra_is_refused = refl

lookalike_is_refused : validate_host small_net guard (codes "notexample.com") ≡ err host_not_allowed
unfolding validate_host normalize_host is_allowed member any text_eq has_suffix has_prefix
    trim_space is_space to_lower lower_char
lookalike_is_refused = refl

api_passes : validate_host small_net guard (codes "api.example.com") ≡ ok tt
unfolding validate_host normalize_host is_allowed member any text_eq has_suffix has_prefix
    is_blocked_ip unmap trim_space is_space to_lower lower_char
api_passes = refl

url_passes : validate_url small_net guard (codes "https://api.example.com/v1") ≡ ok tt
unfolding validate_url validate_parsed validate_host normalize_host is_allowed member any text_eq
    has_suffix has_prefix is_blocked_ip unmap trim_space is_space to_lower lower_char
url_passes = refl

validate_host_ok_example :
    IsPermitted small_net guard (normalize_host small_net (codes "api.example.com"))
validate_host_ok_example = (validate_host_ok small_net guard (codes "api.example.com")).0 api_passes

validate_url_ok_example :
    (url : Url) × (small_net.parse_url (trim_space (codes "https://api.example.com/v1")) ≡ some url)
    × IsPermittedUrl small_net guard url
validate_url_ok_example =
    ((validate_url_ok small_net guard (codes "https://api.example.com/v1")).0 url_passes).1

is_blocked_ip-IsInternal4_example : is_blocked_ip (v4 (dotted 172 20 1 2)) ≡ true
is_blocked_ip-IsInternal4_example =
    (is_blocked_ip-IsInternal4 (dotted 172 20 1 2) (omega arith)).1 (omega arith)
