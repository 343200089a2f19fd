-- ===== src/Node/Bootstrap.antt =====
-- `BootstrapConnect` of utils/utils.go.
pub mod Laws
use open_acn.Base.{
  String, ℕ, ◌+◌, Bool, true, false, List, [], ◌∷◌, ◌++◌, is_empty, length, ◌==◌, Except, done,
  fail, Err, msg, error_text, ok, Exec, pure, raise, ◌>>=◌, ◌>>◌, if◌then◌else◌,
}
use open_acn.Acn.Message.{◌+ˢ◌}
use open_acn.Node.Addresses.{AddrInfo}

-- The libp2p host of a node: the entries of its peerstore, whether it runs and its DHT, and what
-- handles its streams.
pub record Host : Type 0 where
  pub peerstore : List AddrInfo
  pub running : Bool
  pub dht_running : Bool
  pub stream_handlers : List String
  pub notified : List String

-- What a host meets: how `Connect` to a peer ends, and whether the routing table has a peer in the
-- five seconds for which it is looked up.
pub record Network : Type 0 where
  pub connect : AddrInfo → Except (Unit {0})
  pub in_table : String → Bool

-- `ph.Peerstore().AddAddrs` for each peer
abbrev pub add_addrs : List AddrInfo → Exec Host (Unit {0})
add_addrs peers h = (ok tt, record h { peerstore = h.peerstore ++ peers })

-- The text of the last error that is drained from the channel.
abbrev pub last_text : String → List Err → String
last_text text [] = text
last_text text (e ∷ es) = last_text (error_text e) es

module _ (net : Network) where
  abbrev pub put_error : Except (Unit {0}) → List Err → List Err
  put_error (fail e) errs = e ∷ errs
  put_error (done _) errs = errs

  -- The errors that the dials put into the channel; they come here in the order of the peers.
  unfoldable pub dial_errors : List AddrInfo → List Err
  dial_errors [] = []
  dial_errors (p ∷ ps) = put_error (net.connect p) (dial_errors ps)

  -- The loop over the peers at the end; each is waited for until the timeout.
  unfoldable pub await_in_table : List AddrInfo → Exec Host (Unit {0})
  await_in_table [] = pure tt
  await_in_table (p ∷ ps) =
      let rest = await_in_table ps in
      if net.in_table p.id
      then rest
      else raise (msg ("timeout: entry peer haven't been added to DHT routing table " +ˢ p.id))

  unfoldable pub bootstrap_connect : List AddrInfo → Exec Host (Unit {0})
  bootstrap_connect peers = if is_empty peers then raise (msg "not enough bootstrap peers") else do
    add_addrs peers
    if length (dial_errors peers) == length peers
        then raise (msg ("failed to bootstrap: " +ˢ last_text "" (dial_errors peers)))
        else await_in_table peers
