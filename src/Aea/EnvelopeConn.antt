-- ===== src/Aea/EnvelopeConn.antt =====
-- `WriteEnvelopeConn` and `ReadEnvelopeConn` of utils/utils.go.
use open_acn.Base.{false, List, ◌∷◌, done, ok, Exec, lift, ◌>>=◌, ◌≡◌, refl, length, ◌≤◌, is_empty}
use open_acn.Wire.Word.{Bytes, put_uint32}
use open_acn.Wire.Conn.{Conn}
use open_acn.Wire.Frame.{write_bytes_conn, read_bytes_conn, max_message_size}
use open_acn.Wire.Frame.Delivery.{delivering, whole_message_read}
use open_acn.Acn.Message.{Envelope}
use open_acn.Acn.Codec.{Codec}

module _ (envelopes : Codec Envelope) where
  unfoldable pub write_envelope_conn : Envelope → Exec Conn (Unit {0})
  write_envelope_conn envelope = do
    data_bytes ← lift (envelopes.marshal envelope)
    write_bytes_conn data_bytes

  -- What is returned beside an error is not used.
  unfoldable pub read_envelope_conn : Exec Conn Envelope
  read_envelope_conn = do data_bytes ← read_bytes_conn; lift (envelopes.unmarshal data_bytes)

  -- An envelope whose length and bytes each arrive in one delivery is read, where its bytes are not
  -- empty and at most 3 MiB.
  read_envelope_conn-marshal :
      (e : Envelope) (b : Bytes) (segs : List Bytes) (c : Conn)
      → envelopes.marshal e ≡ done b
      → is_empty b ≡ false
      → length b ≤ max_message_size
      → read_envelope_conn (delivering c (put_uint32 (length b) ∷ b ∷ segs))
        ≡ (ok e, delivering c segs)
  unfolding read_envelope_conn
  read_envelope_conn-marshal e b segs c encoded ne small =
      rw ((whole_message_read b segs c ne small).0, envelopes.round_trip e b encoded) refl
