-- ===== src/Tests/StorageExamples.antt =====
-- A file with the record of one agent, saved twice.
use open_acn.Base.{
  String, ◌≡◌, List, [], ◌∷◌, Except, done, fail, msg, ok, refl, arith, if◌then◌else◌,
}
use open_acn.Acn.Message.{AgentRecord}
use open_acn.Acn.Codec.{Codec}
use open_acn.Storage.{nothing_loaded, init_agent_record_persistent_storage}
use open_acn.Storage.Laws.{Savable, save_all, replay, init_agent_record_persistent_storage-save_all}
use open_acn.Tests.Fixtures.{record_of, is_agent, agent-round_trip}

-- A runtime that encodes one record.
abbrev one_record : Codec AgentRecord
one_record = record {
  marshal = λ r. if is_agent r then done (1 ∷ []) else fail (msg "record");
  unmarshal = λ b. done (record_of "agent");
  text = λ r. r.address;
  round_trip = λ r b h. agent-round_trip r b h;
}

abbrev same_id : String → Except String
same_id key = done key

agent-Savable : Savable one_record same_id (record_of "agent")
agent-Savable = record {
  line = 1 ∷ [];
  encoded = refl;
  nonempty = refl;
  short = omega arith;
  id = "peer";
  has_id = refl;
}

abbrev twice : List AgentRecord
twice = record_of "agent" ∷ record_of "agent" ∷ []

init_agent_record_persistent_storage-save_all_example :
    ((save_all one_record same_id twice []).0 ≡ ok tt)
    × (init_agent_record_persistent_storage one_record same_id
          (save_all one_record same_id twice []).1
        ≡ ok (replay one_record same_id twice (agent-Savable, (agent-Savable, tt)) nothing_loaded))
init_agent_record_persistent_storage-save_all_example =
    init_agent_record_persistent_storage-save_all one_record same_id twice
      (agent-Savable, (agent-Savable, tt))
