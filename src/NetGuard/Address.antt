-- ===== src/NetGuard/Address.antt =====
-- isBlockedIP of guard.go, with the tests of net/netip that it calls. An address is the number that
-- its bytes spell, big-endian; zones, which normalizeHost cuts off, are left out.
use mcp_swagger.Prelude.{
  ℕ, ◌*◌, ◌/◌, ◌%◌, ◌^◌, ◌+◌, Bool, true, false, ◌||◌, ◌&&◌, ◌==◌, if◌then◌else◌,
}

-- netip.Addr: the zero value is not valid.
pub data Addr : Type 0 where
  invalid : Addr
  v4 v6 : ℕ → Addr

-- Addr.Unmap
unfoldable pub unmap : Addr → Addr
unmap (v6 n) = if n / 2 ^ 32 == 0xffff then v4 (n % 2 ^ 32) else v6 n
unmap ip = ip

unfoldable pub is_loopback : Addr → Bool
is_loopback (v4 n) = n / 2 ^ 24 == 127
is_loopback (v6 n) = n == 1
is_loopback invalid = false

unfoldable pub is_private : Addr → Bool
is_private (v4 n) =
    (n / 2 ^ 24 == 10) || (n / 2 ^ 20 == 172 * 16 + 1) || (n / 2 ^ 16 == 192 * 256 + 168)
is_private (v6 n) = n / 2 ^ 121 == 0xfc / 2
is_private invalid = false

unfoldable pub is_link_local_unicast : Addr → Bool
is_link_local_unicast (v4 n) = n / 2 ^ 16 == 169 * 256 + 254
is_link_local_unicast (v6 n) = n / 2 ^ 118 == 0xfe80 / 2 ^ 6
is_link_local_unicast invalid = false

-- For v6 the first two bytes are 0xffX2.
unfoldable pub is_link_local_multicast : Addr → Bool
is_link_local_multicast (v4 n) = n / 2 ^ 8 == (224 * 256 + 0) * 256 + 0
is_link_local_multicast (v6 n) = (n / 2 ^ 120 == 0xff) && ((n / 2 ^ 112) % 16 == 2)
is_link_local_multicast invalid = false

unfoldable pub is_multicast : Addr → Bool
is_multicast (v4 n) = n / 2 ^ 28 == 0xe
is_multicast (v6 n) = n / 2 ^ 120 == 0xff
is_multicast invalid = false

unfoldable pub is_unspecified : Addr → Bool
is_unspecified (v4 n) = n == 0
is_unspecified (v6 n) = n == 0
is_unspecified invalid = false

-- extraBlockedPrefixes: 100.64.0.0/10, 198.18.0.0/15, 240.0.0.0/4 and 2001:db8::/32.
unfoldable pub in_extra_prefixes : Addr → Bool
in_extra_prefixes (v4 n) =
    (n / 2 ^ 22 == 100 * 4 + 1) || (n / 2 ^ 17 == 198 * 128 + 9) || (n / 2 ^ 28 == 15)
in_extra_prefixes (v6 n) = n / 2 ^ 96 == 0x20010db8
in_extra_prefixes invalid = false

unfoldable pub is_valid : Addr → Bool
is_valid invalid = false
is_valid _ = true

unfoldable pub is_blocked_ip : Addr → Bool
unfolding is_valid is_loopback is_private is_link_local_unicast is_link_local_multicast is_multicast
    is_unspecified in_extra_prefixes
is_blocked_ip ip =
    if is_valid ip
    then (if is_loopback ip
          || is_private ip
          || is_link_local_unicast ip
          || is_link_local_multicast ip
          || is_multicast ip
          || is_unspecified ip
        then true
        else in_extra_prefixes ip)
    else true
