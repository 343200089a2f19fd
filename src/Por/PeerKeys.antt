-- ===== src/Por/PeerKeys.antt =====
-- The peer id of a public key: `IDFromFetchAIPublicKey` and its uncompressed form in utils/utils.go.
use open_acn.Base.{String, ◌∷◌, Result}
use open_acn.Base.Pure.{◌>>=◌, from_except}
use open_acn.Por.Crypto.{Crypto}

module _ (c : Crypto) where
  unfoldable pub id_from_fetchai_public_key : String → Result String
  id_from_fetchai_public_key public_key = do
    b ← from_except (c.hex_decode (c.to_bytes public_key))
    pub_key ← from_except (c.parse_pub_key b)
    from_except (c.id_from_public_key pub_key)

  -- The bytes are put behind the prefix of an uncompressed key.
  unfoldable pub btc_pub_key_from_uncompressed_hex : String → Result c.PubKey
  btc_pub_key_from_uncompressed_hex public_key = do
    b ← from_except (c.hex_decode (c.to_bytes public_key))
    from_except (c.parse_pub_key (4 ∷ b))

  unfoldable pub id_from_fetchai_public_key_uncompressed : String → Result String
  unfolding btc_pub_key_from_uncompressed_hex
  id_from_fetchai_public_key_uncompressed public_key = do
    pub_key ← btc_pub_key_from_uncompressed_hex public_key
    from_except (c.id_from_public_key pub_key)
