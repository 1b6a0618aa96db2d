-- ===== src/Network.antt =====
-- src/network.cpp: networks by address, port mapping and the mDNS instance name. The hosts and
-- sockets of ENet are left out.
pub mod Addresses
pub mod Names
mod Tests
use switchdesk_engine.Prelude.{
  ℕ, zero, suc, ◌+◌, ◌-◌, ◌%◌, ◌^◌, Bool, true, false, not, ◌&&◌, ◌||◌, Option, none, some, List,
  [], ◌∷◌, ◌++◌, ◌==◌, ltb, leb, if◌then◌else◌, Bytes, codes, bytes_eq, length, take,
}
use switchdesk_engine.Prelude.Int.{ℤ, pos, negsuc, ◌+ℤ◌}

pub data Net : Type 0 where
  pc lan wan : Net

pub data AddressFamily : Type 0 where
  ipv4 both : AddressFamily

-- An address by its number.
pub data Address : Type 0 where
  v4 v6 : ℕ → Address

-- Boost.Asio: the text of an address and back, the IPv4 address that an IPv6 address maps, and
-- whether the hosts of a network have an address.
pub record AddressLibrary : Type 1 where
  pub Range : Type 0
  pub make_address : Bytes → Option Address
  pub to_string : Address → Bytes
  pub v4_mapped : ℕ → Option ℕ
  pub make_network : Bytes → Range
  pub hosts_have : Range → ℕ → Bool

pub from_enum_string : Bytes → Net
from_enum_string view =
    if bytes_eq view (codes "wan") then wan else if bytes_eq view (codes "lan") then lan else pc

pub to_enum_string : Net → Bytes
to_enum_string pc = codes "pc"
to_enum_string lan = codes "lan"
to_enum_string wan = codes "wan"

pub af_from_enum_string : Bytes → AddressFamily
af_from_enum_string view =
    if bytes_eq view (codes "ipv4")
    then ipv4
    else if bytes_eq view (codes "both")
    then both
    else both

pub af_to_any_address_string : AddressFamily → Bytes
af_to_any_address_string ipv4 = codes "0.0.0.0"
af_to_any_address_string both = codes "::"

is_empty : Bytes → Bool
is_empty [] = true
is_empty (b ∷ bs) = false

-- With `config::sunshine.bind_address`.
pub get_bind_address : Bytes → AddressFamily → Bytes
unfolding af_to_any_address_string is_empty
get_bind_address configured af =
    if not (is_empty configured) then configured else af_to_any_address_string af

mapped_or : Address → Option ℕ → Address
mapped_or address none = address
mapped_or address (some n) = v4 n

module _ (lib : AddressLibrary) where
  pub normalize_address : Address → Address
  unfolding mapped_or
  normalize_address (v4 n) = v4 n
  normalize_address (v6 n) = mapped_or (v6 n) (lib.v4_mapped n)

  any_hosts_have : List Bytes → ℕ → Bool
  any_hosts_have [] n = false
  any_hosts_have (range ∷ ranges) n =
      lib.hosts_have (lib.make_network range) n || any_hosts_have ranges n

  pub net_of : Address → Net
  net_of (v6 n) =
      if any_hosts_have (codes "::1/128" ∷ []) n
      then pc
      else if any_hosts_have (codes "fc00::/7" ∷ codes "fe80::/64" ∷ []) n
      then lan
      else wan
  net_of (v4 n) =
      if any_hosts_have (codes "127.0.0.0/8" ∷ []) n
      then pc
      else if any_hosts_have
          (codes "192.168.0.0/16"
            ∷ codes "172.16.0.0/12"
            ∷ codes "10.0.0.0/8"
            ∷ codes "100.64.0.0/10"
            ∷ codes "169.254.0.0/16"
            ∷ [])
          n
      then lan
      else wan

  net_of_parsed : Option Address → Option Net
  net_of_parsed none = none
  net_of_parsed (some address) = some (net_of (normalize_address address))

  -- Nothing where `make_address` throws.
  pub from_address : Bytes → Option Net
  unfolding net_of_parsed
  from_address view = net_of_parsed (lib.make_address view)

  mode_for : ℕ → ℕ → Option Net → Option ℕ
  mode_for lan_mode wan_mode none = none
  mode_for lan_mode wan_mode (some pc) = some lan_mode
  mode_for lan_mode wan_mode (some lan) = some lan_mode
  mode_for lan_mode wan_mode (some wan) = some wan_mode

  -- With the two modes of `config::stream`.
  pub encryption_mode_for_address : ℕ → ℕ → Address → Option ℕ
  unfolding mode_for
  encryption_mode_for_address lan_mode wan_mode address =
      mode_for lan_mode wan_mode (from_address (lib.to_string address))

  pub addr_to_normalized_string : Address → Bytes
  addr_to_normalized_string address = lib.to_string (normalize_address address)

  escaped : Address → Bytes
  escaped (v6 n) = codes "[" ++ lib.to_string (v6 n) ++ codes "]"
  escaped (v4 n) = lib.to_string (v4 n)

  pub addr_to_url_escaped_string : Address → Bytes
  unfolding escaped
  addr_to_url_escaped_string address = escaped (normalize_address address)

-- The low 16 bits.
low_half : ℤ → ℕ
low_half (pos n) = n % 2 ^ 16
low_half (negsuc n) = 2 ^ 16 - 1 - n % 2 ^ 16

-- The port, and whether it is warned about; `base` is `config::sunshine.port`.
pub map_port : ℕ → ℤ → ℕ × Bool
unfolding low_half
map_port base port =
    let mapped_port = low_half (pos base +ℤ port) in
    (mapped_port, ltb mapped_port 1024 || ltb 65535 mapped_port)

-- `std::isalnum` in the C locale.
pub is_alnum : ℕ → Bool
is_alnum c = (leb 48 c && leb c 57) || (leb 65 c && leb c 90) || (leb 97 c && leb c 122)

-- The loop of `mdns_instance_name`; 32 is a space, 45 a dash.
sanitized : Bytes → Bytes
unfolding is_alnum
sanitized [] = []
sanitized (c ∷ cs) =
    let rest = sanitized cs in
    if c == 32 then 45 ∷ rest else if not (is_alnum c) && not (c == 45) then [] else c ∷ rest

or_default : Bytes → Bytes
or_default [] = codes "Sunshine"
or_default (c ∷ cs) = c ∷ cs

pub mdns_instance_name : Bytes → Bytes
unfolding sanitized or_default
mdns_instance_name hostname = or_default (sanitized (take 63 hostname))
