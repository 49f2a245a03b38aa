-- ===== src/Lib.antt =====
-- Verification of the runtime substrate of ajit-segment-bots, of its blueprint checker and of the
-- boards that show both.
--
-- The program runs parts. A part is a process that a launcher forks, that is told by framed commands
-- on a socket to stop or to report, and that ticks and emits its health; its declaration stands in a
-- registry, which a checker holds to the contract rules before any part runs. Parts keep numbers in
-- mapped files, write logs through a writer that hands pages back to the kernel, refuse storage that
-- is memory, and read settings that the operator edits while they run. The substrate's probes
-- measure whether all this is so on the machine, and the boards show the probes, the parts and the
-- contract.
--
-- Settings        runtime/settings_reader.py: load_settings_document and its refusals
--                 (Settings/Reader), LastKnownGoodSettings (Settings/Holder). tomllib, hashlib.sha256
--                 and PurePath.stem are the fields of `Platform`.
-- Watch           runtime/settings_watcher.py: SettingsDirectoryWatch. Its dictionaries and sets are
--                 the record `Watch`; compare_settings_documents is in Watch/Compare, _deliver_diff
--                 and _report_rejection_if_new in Watch/Delivery, _recheck and its three cases in
--                 Watch/Recheck; the constructor, on_any_event and the states a watch comes to are in
--                 Watch/Events, start and stop with the two threads in Watch/Lifecycle. One pass sees
--                 one `Look` at the file system. The callbacks are one `Consumer`, which answers each
--                 call from the calls before it with whether it returned; each call is in the log with
--                 that answer.
-- Control         runtime/control_channel.py: send_command, _receive_exactly, receive_command. A
--                 stream is a list of chunks; the loop's fuel is one more round than bytes asked for.
-- Part            runtime/part_process.py: run_part as turns, each with the frame that was pending,
--                 the time it took and the wall clock.
-- Numeric         runtime/numeric_state.py: open_numeric_state as the list of steps it makes on the
--                 files, so that a kill leaves the effect of the first few; stamps and has_state_gap;
--                 the open state with its writeback and closing is Numeric/Handle.
-- Writer          runtime/page_cache_discipline.py: CacheReleasingWriter and the reading of
--                 memory.peak.
-- Contracts       dashboard/render_blueprint.py: derive_edges (Contracts/Edges), the rules of
--                 find_contract_violations on one feature (Contracts/Rules) and the whole check
--                 (Contracts/Check), with the exit status of dashboard/check_contracts.py;
--                 derive_category_edges and find_flow_gaps (Contracts/Flow).
-- Declaration     runtime/part_declaration.py: load_declaration_from_blueprint.
-- Storage         runtime/storage_facts.py: the mount table, read_filesystem_type and
--                 require_durable_directory.
-- Store           runtime/state_store.py: the journal and the settings changes as rows.
-- Launcher        runtime/forkserver_launcher.py: thread caps, the forkserver, the thread count,
--                 spawn_part.
-- Hardware        runtime/hardware_facts.py: the parsers of /proc, measure_hardware_facts and
--                 read_own_cgroup_directory.
-- Placer          runtime/scope_placer.py: the call for a scope and the loop that waits for it; the
--                 rounds of the loop are what the environment shows, and a round past the deadline
--                 ends it.
-- Probes          runtime/probes/substrate_probes.py: the pinned version and the probe of the
--                 interpreter (Probes/Pinned), the other probes and run_all_substrate_probes
--                 (Probes/Readings). What the machine answers is a `Machine`; the probes call the
--                 definitions of Launcher, Store, Storage, Settings and Hardware.
-- Journal         measurements/2026-08-20-part-runtime/measure_store.py: the keys, values and range
--                 queries of the two stores that were compared, and in Journal/Reopen
--                 lmdb_crash_reopen_proc and sqlite_crash_reopen_proc. LMDB is the list of its entries
--                 in the cursor's order.
-- Board           dashboard/build_part_monitor.py and dashboard/part_health_api.py: the rung of a
--                 part, the label of a block and the counts of build_board_payload; find_source_files,
--                 name_variants, parts_in_violation and measure_parts (Board/Monitor); do_GET of the
--                 handler (Board/Routes).
-- StatusBoard     dashboard/build_status_board.py: the probes on the registry (StatusBoard/Circuit)
--                 and on files, git and processes (StatusBoard/Host), run_all_probes, the tally, the
--                 verdict and the groups of tiles (StatusBoard/Board). What the host answers is a
--                 `Server`.
-- Edits           dashboard/blueprint_edits: apply_2026-08-20_part_declarations.py (Edits/Defaults)
--                 and apply_2026-08-20_correct_live_decision_parts.py (Edits/Corrections), as
--                 functions of the registry's features.
-- RenderSpec      dashboard/render_spec.py: slugify, extract_title, collect_sections,
--                 add_heading_anchors and wrap_tables.
-- Dict, Prelude   dictionaries by text key, and the lists, tests and texts that the parts share.
--
-- The contract checker and the declaration loader read one registry: Declaration/Blueprint sets the
-- one against the other. The loop of Part takes what receive_command of Control answers. The holder
-- of Settings is what the watch of Watch keeps for each path. The status board asks the checker of
-- Contracts, takes in the tiles of Probes, and draws its headline from all of them; the part monitor
-- marks the parts that the checker's messages name.
--
-- Numbers are not negative and unbounded, as Python's are where the program uses them; the prefix of
-- a frame is four bytes, which the limit on a frame keeps in range. Times are numbers of one unit.
--
-- Not modelled: the locks of the watch, whose passes are single steps; the system calls (sockets,
-- fsync, mmap, subprocess) beyond the effect stated in each file; the status board's probes of load,
-- memory and disk, whose thresholds are floats; HTML and Mermaid text, the wiring explorer and the
-- board snapshot; the markdown parser and badge_verdicts; the other edits of the registry; the
-- benchmarks that time the machine; the web frontend.
mod Prelude
pub mod Dict
pub mod Settings
pub mod Watch
pub mod Control
pub mod Part
pub mod Numeric
pub mod Writer
pub mod Contracts
pub mod Declaration
pub mod Storage
pub mod Store
pub mod Launcher
pub mod Hardware
pub mod Placer
pub mod Journal
pub mod Probes
pub mod Edits
pub mod Board
pub mod StatusBoard
pub mod RenderSpec
