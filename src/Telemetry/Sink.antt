-- ===== src/Telemetry/Sink.antt =====
-- scripts/infinite_streaming_encoder/telemetry.py, _SqsSink: a batch of markers as one message.
-- `fails` says of the k-th call of `send_message_batch` whether it raises; `pub_id` is `_PUB_ID`.
use infinite_streaming_encod.Prelude.{ℕ, ◌+◌, Bool, List, [], ◌∷◌, ◌++◌, leb, if◌then◌else◌, take}
use infinite_streaming_encod.Prelude.Text.{Text, codes, decimal, join}
use infinite_streaming_encod.Telemetry.{Item, max_warnings}

-- `_MAX_BODY`.
abbrev pub max_body : ℕ
max_body = 200_000

-- An entry of `send_message_batch`, with the values of its two attributes.
pub record Entry : Type 0 where
  pub message_body : Text
  pub publisher : Text
  pub seq : Text
  pub group : Text
  pub dedup_id : Text

-- `accepted` are the entries of the calls that did not raise.
pub record SqsSink : Type 0 where
  pub accepted : List Entry
  pub calls : ℕ
  pub warned : ℕ
  pub printed : ℕ

abbrev pub new_sink : SqsSink
new_sink = record { accepted = []; calls = 0; warned = 0; printed = 0 }

abbrev pub texts_of : List Item → List Text
texts_of [] = []
texts_of ((seq, marker) ∷ items) = marker ∷ texts_of items

unfoldable pub entry_for : Text → ℕ → List Item → Entry
entry_for pub_id first_seq markers = record {
  message_body = take max_body (join b'\n' (texts_of markers));
  publisher = pub_id;
  seq = decimal first_seq;
  group = pub_id;
  dedup_id = pub_id ++ codes "-" ++ decimal first_seq;
}

unfoldable pub sink_warn : SqsSink → SqsSink
sink_warn s =
    if leb max_warnings s.warned
    then s
    else record s { warned = s.warned + 1; printed = s.printed + 1 }

module _ (fails : ℕ → Bool) (pub_id : Text) where
  -- `_SqsSink.send`.
  unfoldable pub sink_send : List Item → SqsSink → SqsSink
  sink_send [] s = s
  sink_send ((seq, marker) ∷ items) s =
      if fails s.calls then sink_warn (record s { calls = s.calls + 1 }) else record s {
        calls = s.calls + 1;
        accepted = s.accepted ++ entry_for pub_id seq ((seq, marker) ∷ items) ∷ [];
      }

  -- The batches that a publisher hands over, one after the other.
  unfoldable pub sink_send_all : List (List Item) → SqsSink → SqsSink
  sink_send_all [] s = s
  sink_send_all (batch ∷ batches) s = sink_send_all batches (sink_send batch s)
