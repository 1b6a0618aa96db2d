-- ===== src/Network/Addresses.antt =====
-- Networks and encryption modes by address.
use switchdesk_engine.Prelude.{ℕ, Option, none, some, ◌≡◌, refl}
use switchdesk_engine.Network.{
  Net, pc, lan, wan, Address, v4, v6, AddressLibrary, from_enum_string, to_enum_string,
  normalize_address, mapped_or, net_of_parsed, from_address, encryption_mode_for_address,
}

-- The name of a network reads back as the network.
pub net_names : (net : Net) → from_enum_string (to_enum_string net) ≡ net
unfolding from_enum_string to_enum_string
net_names pc = refl
net_names lan = refl
net_names wan = refl

module _ (lib : AddressLibrary) where
  normalize-mapped :
      (n : ℕ) (o : Option ℕ)
      → normalize_address lib (v6 n) ≡ mapped_or (v6 n) o
      → lib.v4_mapped n ≡ o
      → normalize_address lib (mapped_or (v6 n) o) ≡ mapped_or (v6 n) o
  unfolding mapped_or
  normalize-mapped n none e h = e
  normalize-mapped n (some m) e h = unfold normalize_address in refl

  normalize-twice :
      (address : Address)
      → normalize_address lib (normalize_address lib address) ≡ normalize_address lib address
  unfolding normalize_address
  normalize-twice (v4 n) = refl
  normalize-twice (v6 n) = normalize-mapped n (lib.v4_mapped n) refl refl

  -- Where the text of an address reads back as the address: an address and its normal form, which
  -- for an IPv6 address that maps an IPv4 one is that, get the same encryption mode.
  pub mode_of_mapped :
      (lan_mode wan_mode : ℕ) (address : Address)
      → ((a : Address) → lib.make_address (lib.to_string a) ≡ some a)
      → encryption_mode_for_address lib lan_mode wan_mode address
        ≡ encryption_mode_for_address lib lan_mode wan_mode (normalize_address lib address)
  unfolding encryption_mode_for_address from_address net_of_parsed
  mode_of_mapped lan_mode wan_mode address reads =
      simp (reads address, reads (normalize_address lib address), normalize-twice address)
