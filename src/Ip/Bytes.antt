-- ===== src/Ip/Bytes.antt =====
-- Addresses and their four bytes (uno/core/ip.py, `ipv4_from_bytes`, `ipv4_to_bytes`).
use uno.Prelude.{ℕ, ◌^◌, ◌<◌, ◌≡◌, arith, ok}
use uno.Ip.{ipv4_from_bytes, ipv4_to_bytes}

-- Every address below 2 ^ 32 is read back from its four bytes, the most significant first.
pub ipv4_from_bytes-ipv4_to_bytes :
    (ip : ℕ) → ip < 2 ^ 32 → ipv4_from_bytes (ipv4_to_bytes ip) ≡ ok ip
unfolding ipv4_from_bytes ipv4_to_bytes
ipv4_from_bytes-ipv4_to_bytes ip h = ground arith
