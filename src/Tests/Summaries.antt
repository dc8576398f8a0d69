-- ===== src/Tests/Summaries.antt =====
-- A sweep that the firmware's state refuses: its summary.
use mps4_prototyping_board.Prelude.{
  ℕ, ◌≡◌, refl, arith, List, [], ◌∷◌, true, some, ok, err, replicate, has, sorted,
}
use mps4_prototyping_board.Bytes.{Bytes, crc32, find, starts_with, unpack_words}
use mps4_prototyping_board.Proto.{build_frame, frame_bytes, body_bytes}
use mps4_prototyping_board.Proto.Layout.{sent_frame}
use mps4_prototyping_board.Receive.{
  harvest_text, skip, read_u32, unpack_frame, check_candidate, round, parse_loop, try_parse,
}
use mps4_prototyping_board.Link.{
  Link, request, send_request, send_raw, await, request_loop, read_frame, read_from, read_loop,
  judge_response,
}
use mps4_prototyping_board.Link.Commands.{ping, counters_of}
use mps4_prototyping_board.Events.{nat_equality, event_sets, exact}
use mps4_prototyping_board.Events.Verdicts.{
  unproven, counted_nonzero, counted_zero, inconsistent, not_observed,
}
use mps4_prototyping_board.Campaign.{Sweep, rule_ping}
use mps4_prototyping_board.Campaign.Loop.{Camp, sweep}
use mps4_prototyping_board.Campaign.Summary.{Summary, summary}
use mps4_prototyping_board.Campaign.Exit.{summary-exit_code}
use mps4_prototyping_board.Tests.Exchanges.{fresh, ping_sent}

abbrev known : List ℕ
known = 17 ∷ 32 ∷ 35 ∷ []

abbrev boot : Sweep
boot = record {
  blob = [];
  cms_len = 64;
  validity = exact;
  keep_model = true;
  repeats = 3;
  end_timeout = 5000;
}

-- A PONG of a runner in MODEL_READY.
abbrev pong_ready : Bytes
pong_ready = frame_bytes (sent_frame 0x81 1 (3 ∷ 1 ∷ 0 ∷ 0 ∷ replicate 36 0) 0)

abbrev link : Link
link = fresh pong_ready

abbrev refused : Camp
refused = record {
  link = record (fresh []) { seq = 1; sent = ping_sent ∷ []; clock = replicate 7 0 };
  rows = [];
}

sets_run : event_sets known (some (35 ∷ 17 ∷ [])) ≡ ok ((1, 17 ∷ 35 ∷ []) ∷ [])
unfolding event_sets sorted has
sets_run = refl

sweep_run :
    sweep boot ((1, 17 ∷ 35 ∷ []) ∷ []) (record { link = link; rows = [] })
    ≡ (err rule_ping, refused)
unfolding sweep ping counters_of request send_request send_raw await request_loop read_frame
    read_from read_loop judge_response build_frame frame_bytes body_bytes crc32 try_parse parse_loop
    round check_candidate skip harvest_text find starts_with unpack_frame read_u32 unpack_words
sweep_run = refl

-- No row, so that neither of the two events is covered; and the exit code of a refusal.
abbrev empty_summary : Summary
empty_summary = record {
  per = [];
  consistent = (unproven, unproven);
  verdict_counts =
      (counted_nonzero, 0) ∷ (counted_zero, 0) ∷ (inconsistent, 0) ∷ (not_observed, 0) ∷ [];
  coverage = err (0, 2);
  exit_code = 1;
}

summary_run : summary 3 known (some (35 ∷ 17 ∷ [])) (err rule_ping) [] ≡ ok empty_summary
unfolding summary sorted has
summary_run = refl

refused_run :
    (let ended = sweep boot ((1, 17 ∷ 35 ∷ []) ∷ []) (record { link = link; rows = [] }) in
      summary 3 known (some (35 ∷ 17 ∷ [])) ended.0 ended.1.rows ≡ ok empty_summary)
refused_run = rw sweep_run summary_run

summary-exit_code_example : empty_summary.exit_code ≡ 1
summary-exit_code_example =
    summary-exit_code boot known (some (35 ∷ 17 ∷ [])) ((1, 17 ∷ 35 ∷ []) ∷ []) link empty_summary
      (0, 2) sets_run (omega arith) refused_run refl
