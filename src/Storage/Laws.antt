-- ===== src/Storage/Laws.antt =====
-- Saving records and then loading the file.
use open_acn.Base.{
  String, ℕ, zero, suc, ◌%◌, ◌^◌, ◌≤◌, ◌<◌, ◌≡◌, false, none, List, [], ◌∷◌, ◌++◌, length,
  length-append, take, drop, take-append_self, drop-append_self, is_empty, Except, done, eof, ok,
  err, Exec, pure, ◌>>◌, All, refl, sym, ap, ◌∙◌, arith, append_assoc, append-nil,
}
use open_acn.Wire.Word.{Bytes, put_uint32, uint32}
use open_acn.Wire.Buffered.{Reader, content, read_full}
use open_acn.Wire.Buffered.Full.{FullRead, read_full-FullRead}
use open_acn.Wire.Buffered.End.{read_full_end}
use open_acn.Wire.Frame.{frame}
use open_acn.Wire.Frame.RoundTrip.{read_frame_header, length-put_uint32}
use open_acn.Acn.Message.{AgentRecord}
use open_acn.Acn.Codec.{Codec}
use open_acn.Storage.{
  Loaded, nothing_loaded, format_persistent_storage_line, save_agent_record_to_persistent_storage,
  put, load_loop, init_agent_record_persistent_storage,
}

module _ (codec : Codec AgentRecord) (peer_id : String → Except String) where
  -- A record that can be encoded, in fewer than 2^32 bytes, and whose peer key has an id.
  pub record Savable (r : AgentRecord) : Type 0 where
    pub line : Bytes
    pub encoded : codec.marshal r ≡ done line
    pub nonempty : is_empty line ≡ false
    pub short : length line < 2 ^ 32
    pub id : String
    pub has_id : peer_id r.peer_public_key ≡ done id

  -- The records saved one after the other.
  unfoldable pub save_all : List AgentRecord → Exec Bytes (Unit {0})
  save_all [] = pure tt
  save_all (r ∷ rs) = save_agent_record_to_persistent_storage codec none r >> save_all rs

  -- What the records stand for: the last one of an address wins.
  unfoldable pub replay : (rs : List AgentRecord) → All Savable rs → Loaded → Loaded
  replay [] h l = l
  replay (r ∷ rs) (h, hs) l = replay rs hs (put codec peer_id r h.id l)

  frames : (rs : List AgentRecord) → All Savable rs → Bytes
  frames [] h = []
  frames (r ∷ rs) (h, hs) = frame h.line ++ frames rs hs

  formatted : (r : AgentRecord) (h : Savable r) → format_persistent_storage_line codec r ≡ h.line
  unfolding format_persistent_storage_line
  formatted r h = rw (format_persistent_storage_line, h.encoded) refl

  saved_one :
      (r : AgentRecord) (h : Savable r) (file : Bytes)
      → save_agent_record_to_persistent_storage codec none r file ≡ (ok tt, file ++ frame h.line)
  unfolding save_agent_record_to_persistent_storage
  saved_one r h file = rw (formatted r h, h.nonempty, remainder (length h.line) h.short) refl
    where
      remainder : (n : ℕ) → n < 2 ^ 32 → n % 2 ^ 32 ≡ n
      remainder n small = omega arith

  save_all_lem :
      (rs : List AgentRecord) (h : All Savable rs) (file : Bytes)
      → save_all rs file ≡ (ok tt, file ++ frames rs h)
  unfolding save_all frames
  save_all_lem [] h file = ap (λ l. (ok tt, l)) (sym (append-nil file))
  save_all_lem (r ∷ rs) (h, hs) file =
      rw (saved_one r h file) (save_all_lem rs hs (file ++ frame h.line))
      ∙ ap (λ l. (ok tt, l)) (append_assoc file (frame h.line) (frames rs hs))

  load_step :
      (rounds : ℕ) (r r1 r2 : Reader) (header line : Bytes) (x : AgentRecord) (id : String)
      (l : Loaded) (n : ℕ)
      → read_full 4 r ≡ (ok header, r1)
      → uint32 header ≡ n
      → read_full n r1 ≡ (ok line, r2)
      → codec.unmarshal line ≡ done x
      → peer_id x.peer_public_key ≡ done id
      → load_loop codec peer_id (suc rounds) r l
        ≡ load_loop codec peer_id rounds r2 (put codec peer_id x id l)
  unfolding load_loop
  load_step rounds r r1 r2 header line x id l n got size rest decoded has_id =
      rw (load_loop, got, size, rest, decoded, has_id) refl

  load_end :
      (rounds : ℕ) (r r1 : Reader) (l : Loaded)
      → read_full 4 r ≡ (err eof, r1)
      → load_loop codec peer_id (suc rounds) r l ≡ ok l
  unfolding load_loop
  load_end rounds r r1 l e = rw (load_loop, e) refl

  load_frames :
      (rounds : ℕ) (rs : List AgentRecord) (h : All Savable rs) (r : Reader) (l : Loaded)
      → length rs < rounds
      → content r ≡ frames rs h
      → r.conn.ended ≡ eof
      → load_loop codec peer_id rounds r l ≡ ok (replay rs h l)
  unfolding frames replay
  load_frames zero rs h r l room e end = absurd (omega arith)
  load_frames (suc rounds) [] h r l room e end =
      let (r1, ended) = read_full_end 3 r e in
      load_end rounds r r1 l (ended ∙ ap (λ x. (err x, r1)) end)
  load_frames (suc rounds) (x ∷ rs) (h, hs) r l room e end =
      let (header, r1, got, size, left, same) =
        read_frame_header (length h.line) (h.line ++ frames rs hs) r
          (e ∙ append_assoc (put_uint32 (length h.line)) h.line (frames rs hs)) h.short in
      let f : FullRead (length h.line) r1 =
        read_full-FullRead (length h.line) r1
          (omega (arith, ap length left, length-append h.line (frames rs hs))) in
      load_step rounds r r1 f.after header h.line x h.id l (length h.line) got size
        (f.result
          ∙ ap (λ p. (ok p, f.after))
              (ap (take (length h.line)) left ∙ take-append_self h.line (frames rs hs)))
        (codec.round_trip x h.line h.encoded) h.has_id
      ∙ load_frames rounds rs hs f.after (put codec peer_id x h.id l) (omega arith)
          (f.rest ∙ ap (drop (length h.line)) left ∙ drop-append_self h.line (frames rs hs))
          (f.ended ∙ same ∙ end)

  length-frames : (rs : List AgentRecord) (h : All Savable rs) → length rs ≤ length (frames rs h)
  unfolding frames
  length-frames [] h = omega arith
  length-frames (r ∷ rs) (h, hs) = omega (
    arith,
    length-frames rs hs,
    length-append (put_uint32 (length h.line) ++ h.line) (frames rs hs),
    length-append (put_uint32 (length h.line)) h.line,
    length-put_uint32 (length h.line),
  )

  load_file :
      (file : Bytes) (rs : List AgentRecord) (h : All Savable rs)
      → file ≡ frames rs h
      → init_agent_record_persistent_storage codec peer_id file ≡ ok (replay rs h nothing_loaded)
  unfolding init_agent_record_persistent_storage
  load_file file rs h e =
      load_frames (suc (length file)) rs h _ nothing_loaded
        (omega (arith, length-frames rs h, ap length e)) (append-nil file ∙ e) refl

  -- Records that can be encoded in 1 to 2^32 - 1 bytes and whose peer keys have ids, saved one
  -- after the other into an empty file, are all written, and loading the file gives all of them,
  -- the last one for each address, with the id of its peer key.
  pub init_agent_record_persistent_storage-save_all :
      (rs : List AgentRecord) (h : All Savable rs)
      → ((save_all rs []).0 ≡ ok tt)
        × (init_agent_record_persistent_storage codec peer_id (save_all rs []).1
            ≡ ok (replay rs h nothing_loaded))
  init_agent_record_persistent_storage-save_all rs h =
      let written : save_all rs [] ≡ (ok tt, frames rs h) = save_all_lem rs h [] in
      (
        ap (λ x. x.0) written,
        ap (λ x. init_agent_record_persistent_storage codec peer_id x.1) written
            ∙ load_file (frames rs h) rs h refl,
      )
