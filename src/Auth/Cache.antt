-- ===== src/Auth/Cache.antt =====
-- How long the cache of introspections keeps a principal.
use mcp_swagger.Prelude.{◌≡◌, ◌↔◌, ℕ, ◌+◌, ◌≤◌, Option, none, some, arith, subst, sym}
use mcp_swagger.Text.{Text}
use mcp_swagger.Text.Laws.{text_eq_iff}
use mcp_swagger.Dict.{Dict, get, put, get-put}
use mcp_swagger.Auth.Claims.{Instant, Principal}
use mcp_swagger.Auth.Validators.{
  IntrospectionCacheEntry, entry_at, cached, earlier, store_principal,
}

-- No later than the expiry of the token, where it has one.
abbrev pub IsInTime : Instant → Option Instant → Type 0
IsInTime now none = Unit {0}
IsInTime now (some exp) = now ≤ exp

entry_fresh :
    (now bound : Instant) (token : Text) (p : Principal) (exp : Option Instant)
    (cache : Dict IntrospectionCacheEntry)
    → ((entry_at now token cache
          (some (record { principal = p; expires_at = earlier exp bound }))).1
        ≡ some p)
      ↔ ((now ≤ bound) × IsInTime now exp)
entry_fresh now bound token p none cache = (λ h. ground arith, λ h. ground arith)
entry_fresh now bound token p (some exp) cache = (λ h. ground arith, λ h. ground arith)

-- A principal that was stored for a token is found in the cache exactly until the time to live
-- after the storing and, where the token expires, until its expiry, both included.
pub cached_iff_fresh :
    (stored now : Instant) (ttl : ℕ) (token : Text) (p : Principal) (exp : Option Instant)
    (cache : Dict IntrospectionCacheEntry)
    → ((cached now token (store_principal stored ttl token p exp cache)).1 ≡ some p)
      ↔ ((now ≤ stored + ttl) × IsInTime now exp)
unfolding cached store_principal
cached_iff_fresh stored now ttl token p exp cache =
    let entry : IntrospectionCacheEntry = record {
      principal = p;
      expires_at = earlier exp (stored + ttl);
    } in
    let after = put token entry cache in
    let found : get token after ≡ some entry =
      ground (arith, get-put token token entry cache, text_eq_iff token token) in
    subst
      (λ o. ((entry_at now token after o).1 ≡ some p) ↔ ((now ≤ stored + ttl) × IsInTime now exp))
      (sym found) (entry_fresh now (stored + ttl) token p exp after)
