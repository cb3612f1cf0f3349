-- ===== src/Tests/Stages.antt =====
-- cli_batch.py, the stage board: announcements that are late, repeated and taken back.
use infinite_streaming_encod.Prelude.{◌≡◌, refl, none, some, List, [], ◌∷◌}
use infinite_streaming_encod.Prelude.Text.{Text, codes, text_eq}
use infinite_streaming_encod.Stages.{
  Call, announce, carried, emit_all, emit_stage, empty_board, is_in, is_stale, rank, rendered_width,
  shown,
}
use infinite_streaming_encod.Stages.Guard.{Shows, emit_all-Shows}
use infinite_streaming_encod.Prelude.Dict.{assign, find}

abbrev v1 : Text
v1 = codes "encode:h264:720p:chunk1"

abbrev halfway : Call
halfway = record {
  key = v1;
  status = codes "running";
  percent = some 50_000_000;
  src = codes "worker";
}

abbrev behind : Call
behind = record {
  key = v1;
  status = codes "running";
  percent = some 40_000_000;
  src = codes "worker";
}

abbrev reclaimed : Call
reclaimed = record { key = v1; status = codes "reclaimed"; percent = none; src = codes "census" }

abbrev late : Call
late = record { key = v1; status = codes "starting"; percent = none; src = codes "event" }

abbrev done : Call
done = record { key = v1; status = codes "done"; percent = some 100_000_000; src = codes "event" }

abbrev calls : List Call
calls = halfway ∷ behind ∷ late ∷ reclaimed ∷ done ∷ halfway ∷ []

-- The percent is held, the late status and what comes after done are dropped.
shown_of_calls :
    shown v1 (emit_all calls empty_board).printed
    ≡ (codes "running", 50_000_000)
      ∷ (codes "running", 50_000_000)
      ∷ (codes "reclaimed", 50_000_000)
      ∷ (codes "done", 100_000_000)
      ∷ []
unfolding shown emit_all emit_stage is_stale find announce assign text_eq is_in rank rendered_width
    carried
shown_of_calls = refl

emit_all-Shows_example : Shows v1 empty_board (emit_all calls empty_board)
emit_all-Shows_example = emit_all-Shows v1 calls empty_board
