-- ===== src/Ip.antt =====
-- uno/core/ip.py: the functions on IPv4 addresses and networks that compute. An address is its
-- number, below 2 ^ 32; the classes of Python's `ipaddress` are modelled as far as they are used.
-- The functions that run `ip`, `iptables` or a resolver are not modelled.
pub mod Networks
pub mod Bytes
use uno.Prelude.{
  ℕ, zero, suc, ◌+◌, ◌-◌, ◌*◌, ◌/◌, ◌%◌, ◌^◌, Bool, ◌&&◌, Option, none, some, List, [], ◌∷◌, ◌++◌,
  ltb, leb, ◌==◌, if◌then◌else◌, Result, ok, raise, value_error, address_value_error, type_error,
}

-- An `ipaddress.IPv4Network`.
pub record Network : Type 0 where
  pub address : ℕ
  pub prefixlen : ℕ

-- The number of addresses behind a prefix.
abbrev pub hosts : ℕ → ℕ
hosts prefixlen = 2 ^ (32 - prefixlen)

-- `a in n`, for an address and a network
unfoldable pub contains : ℕ → Network → Bool
contains a n = a - a % hosts n.prefixlen == n.address

-- `ip_network(f"{a}/{prefixlen}", strict=False)`
unfoldable pub network_of : ℕ → ℕ → Network
network_of a prefixlen = record { address = a - a % hosts prefixlen; prefixlen = prefixlen }

-- `ip_network(f"{a}/{prefixlen}")`: bits set behind the prefix are an error, and so is a prefix
-- of more than 32 bits.
unfoldable pub network_strict : ℕ → ℕ → Result Network
network_strict a prefixlen =
    if leb prefixlen 32 && (a % hosts prefixlen == 0)
    then ok (record { address = a; prefixlen = prefixlen })
    else raise value_error

-- `a + n`, for an address and a number
unfoldable pub add_address : ℕ → ℕ → Result ℕ
add_address a n = if ltb (a + n) (2 ^ 32) then ok (a + n) else raise address_value_error

-- `ipv4_nic_network`, with the netmask as a number of bits. Below 32 the bits of `ip_int` that
-- the mask `(1 << 32 - mask_size) - 1` selects are subtracted: the remainder by its power of two.
unfoldable pub ipv4_nic_network : ℕ → ℕ → Result Network
unfolding network_strict
ipv4_nic_network ip_int mask_size =
    network_strict (if ltb mask_size 32 then ip_int - ip_int % 2 ^ (32 - mask_size) else ip_int)
      mask_size

-- The digits of `bin(n)[2:]`, the most significant first; `fuel` bounds their number.
unfoldable pub bin_digits : ℕ → ℕ → List ℕ
bin_digits zero n = []
bin_digits (suc fuel) n =
    let more = bin_digits fuel (n / 2) in if ltb n 2 then n ∷ [] else more ++ (n % 2) ∷ []

-- `s.rindex("1")`, from the left: the last position where a 1 stands, if there is one
unfoldable pub rindex_one : ℕ → Option ℕ → List ℕ → Option ℕ
rindex_one i found [] = found
rindex_one i found (d ∷ ds) = rindex_one (i + 1) (if d == 1 then some i else found) ds

mask_size_of : Option ℕ → Result ℕ
mask_size_of none = raise value_error
mask_size_of (some i) = ok (i + 1)

-- `ipv4_netmask_to_cidr`: `rindex` itself raises ValueError where no 1 stands, so that the test
-- behind it never fires. An address has at most 32 digits.
unfoldable pub ipv4_netmask_to_cidr : ℕ → Result ℕ
unfolding bin_digits rindex_one mask_size_of
ipv4_netmask_to_cidr mask = mask_size_of (rindex_one 0 none (bin_digits 32 mask))

-- `int.from_bytes(ip_bytes, byteorder="big")`
from_big_endian : ℕ → List ℕ → ℕ
from_big_endian acc [] = acc
from_big_endian acc (b ∷ bs) = from_big_endian (acc * 256 + b) bs

-- `ipv4_from_bytes`: a number past the largest address is an AddressValueError.
unfoldable pub ipv4_from_bytes : List ℕ → Result ℕ
unfolding from_big_endian
ipv4_from_bytes ip_bytes =
    let ip = from_big_endian 0 ip_bytes in
    if ltb ip (2 ^ 32) then ok ip else raise address_value_error

-- `ipv4_to_bytes`, for an IPv4 address
unfoldable pub ipv4_to_bytes : ℕ → List ℕ
ipv4_to_bytes ip = ip / 16777216 % 256 ∷ ip / 65536 % 256 ∷ ip / 256 % 256 ∷ ip % 256 ∷ []
