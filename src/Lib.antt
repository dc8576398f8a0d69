-- ===== src/Lib.antt =====
-- The tools of the NPU prototyping board: the wire protocol that the host speaks with the runner
-- firmware over the UART, the workload blob that it sends, the rules by which it judges the runs of a
-- campaign, and the gate over the firmware's call graph.
--
-- The parts. The firmware sends frames and printf text over one UART. `RunnerLink` in
-- host/lib/runner_proto.py collects the bytes that arrive in a buffer, takes frames out of it, and
-- makes exchanges of them: a request and its answer, or a run with an ACK and a RUN_COMPLETE, whose
-- payload is a measurement record. The workload that LOAD_MODEL_CHUNK carries is a PMWL blob, which
-- host/lib/pmwl.py packs and parses; its command stream comes out of a driver payload by extract_cms
-- of host/container/pack_vela_workload.py, and its knob words out of `knobs`. A campaign
-- is a sweep of host/board/run_pmu_events.py over the link, set by set: it asks for the event sets of
-- host/lib/pmu_events_parse.py, which judges each record and each event; its rows are read again by
-- host/lib/results.py and gated by host/analysis/baseline_gate.py and stage1.py, and host/analysis/stage2a.py draws conclusions from the gated runs. The golden output of a workload
-- comes out of a UART capture by host/analysis/ofm_compare.py and mlek_golden.py. Apart from them,
-- firmware/gate/check_measure_symbols.py decides on the linked firmware whether a build may measure, and
-- check_runner.py whether a runner may be used; firmware/vendor/patch_u85_vendor_timeout.py makes the
-- vendor file that the runner is built from, and firmware/common/gen_npu_pmu_regs.py the register header.
--   Bytes.antt    what the tools call of Python: struct words, bytes.find, zlib.crc32.
--   Proto.antt    the constants, Frame and build_frame.
--   Receive.antt  the buffer, text_log and resyncs of RunnerLink; _harvest_text and _try_parse.
--   Measure.antt  decode_pmu_block, measurement_payload_crc and parse_measurement_payload;
--                 Measure/Encoding.antt writes the record's layout down apart from the parser.
--   Link.antt     the state of RunnerLink, read_frame, send_raw, request and run.
--   Link/Live.antt  when an answer arrives in time: streams of chunks and readings of the clock;
--                 Link/Deadline.antt the deadline of read_frame.
--   Link/Commands.antt  the commands, ping to reset_runner.
--   Pmwl.antt     the words of a blob and its parts; Pmwl/Blob.antt pack, Pmwl/Parse.antt
--                 parse_header, Pmwl/Knobs.antt the tables and knobs.
--   Events.antt   event_sets and run_validity, on the record of Measure.antt; Events/Verdicts.antt
--                 verdict, consistency and check_coverage.
--   Campaign.antt the record of a run turned into rows; Campaign/Loop.antt prime and the loop of
--                 host/board/run_pmu_events.py over sets and repeats, on the link of Link.antt;
--                 Campaign/Summary.antt the verdicts, the coverage and the exit code of main.
--   Baseline.antt load_runs, run_checks and stage1_checks; Baseline/Boot.antt boot_checks, which
--                 calls knobs, and gate; Baseline/Outcomes.antt outcome and overall.
--   Study.antt    separation, inactivity_status, efficiency_status, hypotheses and reproduction.
--   Study/Spreads.antt  what separation reads of stats in host/analysis/stage1.py.
--   Workload.antt extract_cms; Workload/Vela.antt inspect_vela.
--   Ofm.antt      section and compare of ofm_compare.py; Ofm/Golden.antt validity and entry of
--                 mlek_golden.py.
--   Models.antt   geometry of host/container/make_op_model.py and op_macs of workload_meta.py.
--   Symbols.antt  the lists of the gate and is_denied; Symbols/Walk.antt reachable, Symbols/Path.antt
--                 shortest_path, Symbols/Layout.antt check_sec_noinit, Symbols/Gates.antt
--                 check_injections and check_test_hooks, Symbols/Verdict.antt build_graph,
--                 denylist_verdict and main.
--   Runner.antt   check and _register_offset_call of check_runner.py.
--   Vendor.antt   generate of patch_u85_vendor_timeout.py.
--   Regs.antt     _bitfields, _one and the loop over WANTED of gen_npu_pmu_regs.py; Regs/Extract.antt
--                 the rest of extract, Regs/Render.antt render and the modes of the script.
--   Tests.antt    runs on concrete inputs.
--
-- The environment. Link.clock lists what time.time() will return, in whole milliseconds, and
-- Link.chunks what read(1024) will return; Link.sent is what was written. A trace of the clock that
-- ends stands for a deadline that passed; `request` has no deadline for its loop, so that it is bounded by
-- the trace only. An exception is the error of a Result, and the state
-- changed before it stays changed. What objdump and nm print, the map file, the ids that the driver
-- knows, the rows of runs.csv and the keys of summary.json are arguments, the last two decoded. So is
-- what a regular expression finds in the vendor's register header or in the runner's disassembly, and
-- what the tflite reader gives of a model; SHA-256 is a function that is given. The expressions of the
-- vendor patch and of the OFM dump are modelled, on texts.
--
-- Numbers. A test of a quotient against one percent is written over the integers, `100 * |a - b| <= b`,
-- which is what the floating-point test comes to for counts of 48 bits. The arguments of knobs are
-- natural numbers: its tests refuse a negative one. The numbers of Study.antt are
-- those of `statistics`, and a parameter: a type with the comparisons and the difference that are used.
--
-- Fuel. _try_parse has a round for each byte of the buffer and one more: a round that goes on drops a
-- byte. The loops of request and run have a round for each reading of the clock and one more: a
-- round takes a reading at least. The search of the call graph has a round for each root and each
-- target, since each node is queued once. extract_cms has a round for each word and one more: a
-- round that goes on takes a word at least.
--
-- Not modelled: the serial port's settings, load_end_timeout (floating point), error texts, the
-- command-line programs around these functions, the ratios and tables of the analysis, the calls of
-- Vela, tflite, flatbuffers and numpy in host/container, the texts of host/lib/mlek_profile.py, and the
-- firmware itself and the board scripts.
pub mod Prelude
pub mod Bytes
pub mod Proto
pub mod Receive
pub mod Measure
pub mod Link
pub mod Pmwl
pub mod Events
pub mod Campaign
pub mod Baseline
pub mod Study
pub mod Workload
pub mod Ofm
pub mod Models
pub mod Symbols
pub mod Runner
pub mod Vendor
pub mod Regs
pub mod Tests
