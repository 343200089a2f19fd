-- ===== src/Storage.antt =====
-- The file of agent records of dht/dhtpeer/dhtpeer.go: `saveAgentRecordToPersistentStorage` and
-- `initAgentRecordPersistentStorage`.
pub mod Laws
use open_acn.Base.{
  String, ℕ, zero, suc, ◌+◌, ◌%◌, ◌^◌, Bool, Option, none, some, [], ◌∷◌, ◌++◌, length, is_empty,
  Except, done, fail, Err, msg, eof, error_text, Result, ok, err, panic, Exec, raise, if◌then◌else◌,
}
use open_acn.Base.GoMap.{GoMap, insert}
use open_acn.Wire.Word.{Bytes, put_uint32, uint32}
use open_acn.Wire.Conn.{Conn}
use open_acn.Wire.Buffered.{Reader, new_reader, read_full}
use open_acn.Acn.Message.{AgentRecord, ◌+ˢ◌}
use open_acn.Acn.Codec.{Codec}

-- `errors.Wrap(err, text)`
abbrev pub wrap : Err → String → Err
wrap e text = msg (text +ˢ ": " +ˢ error_text e)

-- What loading fills in, and the number of records.
pub record Loaded : Type 0 where
  pub agent_records : GoMap AgentRecord
  pub dht_addresses : GoMap String
  pub counter : ℕ

abbrev pub nothing_loaded : Loaded
nothing_loaded = record { agent_records = []; dht_addresses = []; counter = 0 }

module _ (codec : Codec AgentRecord) where
  -- The error of `proto.Marshal` is dropped, and its bytes are then nil.
  unfoldable pub format_persistent_storage_line : AgentRecord → Bytes
  format_persistent_storage_line r = elim (codec.marshal r) [ fail e ↦ [] | done b ↦ b ]

  -- The file is opened for appending; `write_error` is the error of its `Write`.
  unfoldable pub save_agent_record_to_persistent_storage :
      Option Err → AgentRecord → Exec Bytes (Unit {0})
  save_agent_record_to_persistent_storage write_error r file =
      let line = format_persistent_storage_line r in
      if is_empty line
      then (err (msg ("while formating record " +ˢ codec.text r)), file)
      else elim write_error [
        | some e ↦ (err (wrap e "while writing record to persistent storage"), file)
        | none ↦ (ok tt, file ++ (put_uint32 (length line % 2 ^ 32) ++ line))
      ]

  -- `utils.IDFromFetchAIPublicKey(publicKey)` and its text
  module _ (peer_id : String → Except String) where
    abbrev pub loading_failed : Err → Result Loaded
    loading_failed e = err (wrap e "while loading agent records")

    abbrev pub put : AgentRecord → String → Loaded → Loaded
    put r id l = record {
      agent_records = insert r.address r l.agent_records;
      dht_addresses = insert r.address id l.dht_addresses;
      counter = l.counter + 1;
    }

    abbrev pub stored :
        AgentRecord → Except String → (Loaded → Result Loaded) → Loaded → Result Loaded
    stored r (fail e) next l = err (wrap e "While loading agent records")
    stored r (done id) next l = next (put r id l)

    abbrev pub parsed : Except AgentRecord → (Loaded → Result Loaded) → Loaded → Result Loaded
    parsed (fail e) next l = loading_failed e
    parsed (done r) next l = stored r (peer_id r.peer_public_key) next l

    abbrev pub line_read :
        Result Bytes × Reader → (Reader → Loaded → Result Loaded) → Loaded → Result Loaded
    line_read (ok line, r) next l = parsed (codec.unmarshal line) (next r) l
    line_read (err e, r) next l = loading_failed e
    line_read (panic, r) next l = panic

    -- The end of the file before a header ends the loop.
    abbrev pub header_read :
        Result Bytes × Reader → (Reader → Loaded → Result Loaded) → Loaded → Result Loaded
    header_read (ok header, r) next l = line_read (read_full (uint32 header) r) next l
    header_read (err eof, r) next l = ok l
    header_read (err e, r) next l = loading_failed e
    header_read (panic, r) next l = panic

    -- The loop, on rounds; it would panic if they ran out.
    unfoldable pub load_loop : ℕ → Reader → Loaded → Result Loaded
    load_loop zero r l = panic
    load_loop (suc rounds) r l = header_read (read_full 4 r) (load_loop rounds) l

    -- Each round but the last takes at least the four bytes of a header.
    unfoldable pub init_agent_record_persistent_storage : Bytes → Result Loaded
    init_agent_record_persistent_storage file =
        load_loop (suc (length file))
          (new_reader (record { incoming = file ∷ []; ended = eof; outgoing = []; broken = none }))
          nothing_loaded
