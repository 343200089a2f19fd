-- ===== src/Tests/ApiExamples.antt =====
-- An agent with the address "" that sends an envelope to "agent" through its socket.
use open_acn.Base.{[], ◌∷◌, some, none, true, false}
use open_acn.Wire.Frame.{frame}
use open_acn.Aea.Api.{AeaApi, listen_round}
use open_acn.Aea.Api.Laws.{Emitted, listen_round-Emitted}
use open_acn.Tests.Fixtures.{quiet, messages, envelopes, record_of}

abbrev api : AeaApi
api = record {
  agent_addr = "";
  agent_record = some (record_of "");
  standalone = false;
  connected = true;
  closing = false;
  queues_closed = false;
  pipe = record quiet { incoming = frame (5 ∷ 9 ∷ []) ∷ [] };
  out_queue = [];
  send_queue = [];
  acn_status_chan = [];
  waiting = none;
}

listen_round-Emitted_example : Emitted api (listen_round messages envelopes none api).1
listen_round-Emitted_example = listen_round-Emitted messages envelopes api
