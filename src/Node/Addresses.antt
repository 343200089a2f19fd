-- ===== src/Node/Addresses.antt =====
-- `GetPeersAddrInfo` of utils/utils.go.
use open_acn.Base.{String, Option, none, some, List, [], ◌∷◌, Except, Result, ok, panic}
use open_acn.Base.Pure.{◌>>=◌, from_except}

-- `peer.AddrInfo`: the id of a peer, and its addresses as one value.
pub record AddrInfo : Type 0 where
  pub id : String
  pub addrs : String

-- The multiaddr library. `StringCast` panics on a text that is no address, which is `none` here.
pub record Addresses : Type 0 where
  pub string_cast : String → Option String
  pub addr_info_from_p2p_addr : String → Except AddrInfo

module _ (a : Addresses) where
  abbrev pub addr_info : Option String → Result AddrInfo
  addr_info none = panic
  addr_info (some maddr) = from_except (a.addr_info_from_p2p_addr maddr)

  -- What is returned beside an error is not used.
  unfoldable pub get_peers_addr_info : List String → Result (List AddrInfo)
  get_peers_addr_info [] = ok []
  get_peers_addr_info (addr ∷ rest) = do
    p ← addr_info (a.string_cast addr)
    ps ← get_peers_addr_info rest
    ok (p ∷ ps)
