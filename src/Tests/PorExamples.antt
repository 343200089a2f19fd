-- ===== src/Tests/PorExamples.antt =====
-- The check of a proof of representation with stand-in libraries.
use open_acn.Base.{◌≡◌, ◌↔◌, ◌≢◌, ok, panic, refl, arith, eq_iff}
use open_acn.Acn.Message.{AgentRecord}
use open_acn.Por.Check.{is_valid_proof_of_representation, accepted}
use open_acn.Por.Check.Laws.{IsProof, is_valid_proof_of_representation_iff}
use open_acn.Por.Check.Panics.{check_total, short_key_panic}
use open_acn.Tests.Fixtures.{crypto, record_of}

abbrev ethereum_record : AgentRecord
ethereum_record = record (record_of "agent") { ledger_id = "ethereum" }

is_valid_proof_of_representation_iff_example :
    (is_valid_proof_of_representation crypto (record_of "agent") "agent" "peer" ≡ ok accepted)
    ↔ IsProof crypto (record_of "agent") "agent" "peer"
is_valid_proof_of_representation_iff_example =
    is_valid_proof_of_representation_iff crypto (record_of "agent") "agent" "peer"

check_total_example :
    is_valid_proof_of_representation crypto (record_of "agent") "agent" "peer" ≢ panic
check_total_example =
    check_total crypto (record_of "agent") "agent" "peer"
      (λ e. ground (arith, (eq_iff "cosmos" "ethereum").1 e))

short_key_panic_example :
    is_valid_proof_of_representation crypto ethereum_record "agent" "peer" ≡ panic
short_key_panic_example =
    short_key_panic crypto ethereum_record "agent" "peer" refl refl refl (omega arith)
