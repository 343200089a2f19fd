-- ===== src/Common/Proof.antt =====
-- The texts of statuses that routing makes errors from.
use open_acn.Base.{String, none, some, Err, msg, error_text}
use open_acn.Acn.Message.{StatusBody, code_name, join, ◌+ˢ◌}
use open_acn.Por.Check.{Verdict}

-- `status.Code.String() + " : " + strings.Join(status.Msgs, ":")`
abbrev pub status_text : StatusBody → String
status_text b = code_name b.code +ˢ " : " +ˢ join ":" b.msgs

-- `errors.Wrap` puts the text of the status before that of the error.
abbrev pub proof_failure : Verdict → Err
proof_failure (b, none) = msg (status_text b)
proof_failure (b, some e) = msg (status_text b +ˢ ": " +ˢ error_text e)
