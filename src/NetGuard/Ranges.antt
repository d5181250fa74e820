-- ===== src/NetGuard/Ranges.antt =====
-- The blocked addresses as ranges.
use mcp_swagger.Prelude.{ℕ, ◌*◌, ◌-◌, ◌+◌, ◌^◌, ◌≤◌, ◌<◌, ◌≡◌, ◌↔◌, ◌⊎◌, true, arith}
use mcp_swagger.NetGuard.Address.{v4, v6, unmap, is_blocked_ip}

-- The number of a dotted address.
abbrev pub dotted : ℕ → ℕ → ℕ → ℕ → ℕ
dotted a b c d = ((a * 256 + b) * 256 + c) * 256 + d

abbrev pub Between : ℕ → ℕ → ℕ → Type 0
Between lo hi n = (lo ≤ n) × (n ≤ hi)

-- Local, private, shared, benchmark, multicast and reserved addresses.
abbrev pub IsInternal4 : ℕ → Type 0
IsInternal4 n =
    (n ≡ 0)
    ⊎ Between (dotted 10 0 0 0) (dotted 10 255 255 255) n
    ⊎ Between (dotted 100 64 0 0) (dotted 100 127 255 255) n
    ⊎ Between (dotted 127 0 0 0) (dotted 127 255 255 255) n
    ⊎ Between (dotted 169 254 0 0) (dotted 169 254 255 255) n
    ⊎ Between (dotted 172 16 0 0) (dotted 172 31 255 255) n
    ⊎ Between (dotted 192 168 0 0) (dotted 192 168 255 255) n
    ⊎ Between (dotted 198 18 0 0) (dotted 198 19 255 255) n
    ⊎ Between (dotted 224 0 0 0) (dotted 255 255 255 255) n

-- An IPv4 address is blocked exactly when it lies in one of the ranges of unspecified, private,
-- shared, loopback, link-local, benchmark, multicast and reserved addresses.
pub is_blocked_ip-IsInternal4 : (n : ℕ) → n < 2 ^ 32 → (is_blocked_ip (v4 n) ≡ true) ↔ IsInternal4 n
unfolding is_blocked_ip
is_blocked_ip-IsInternal4 n h = (λ e. ground arith, λ r. ground arith)

-- The unspecified and loopback addresses, fc00::/7, fe80::/10, ff00::/8 and 2001:db8::/32.
abbrev pub IsInternal6 : ℕ → Type 0
IsInternal6 n =
    (n ≡ 0)
    ⊎ (n ≡ 1)
    ⊎ Between (0xfc * 2 ^ 120) (0xfe * 2 ^ 120 - 1) n
    ⊎ Between (0xfe80 * 2 ^ 112) (0xfec0 * 2 ^ 112 - 1) n
    ⊎ Between (0xff * 2 ^ 120) (2 ^ 128 - 1) n
    ⊎ Between (0x20010db8 * 2 ^ 96) (0x20010db9 * 2 ^ 96 - 1) n

-- An IPv6 address is blocked exactly when it is unspecified or loopback or lies in fc00::/7,
-- fe80::/10, ff00::/8 or 2001:db8::/32.
pub is_blocked_ip-IsInternal6 :
    (n : ℕ) → n < 2 ^ 128 → (is_blocked_ip (v6 n) ≡ true) ↔ IsInternal6 n
unfolding is_blocked_ip
is_blocked_ip-IsInternal6 n h = (λ e. ground arith, λ r. ground arith)

unmap_mapped : (n : ℕ) → n < 2 ^ 32 → unmap (v6 (0xffff * 2 ^ 32 + n)) ≡ v4 n
unfolding unmap
unmap_mapped n h = ground arith

-- An IPv4 address that is written as an IPv6 address, ::ffff:a.b.c.d, is blocked exactly when the
-- IPv4 address lies in one of its ranges.
pub is_blocked_ip-mapped :
    (n : ℕ) → n < 2 ^ 32 → (is_blocked_ip (unmap (v6 (0xffff * 2 ^ 32 + n))) ≡ true) ↔ IsInternal4 n
is_blocked_ip-mapped n h = rw (unmap_mapped n h) (is_blocked_ip-IsInternal4 n h)
