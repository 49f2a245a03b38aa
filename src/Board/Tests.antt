-- ===== src/Board/Tests.antt =====
-- The board of the small registry, with one part running.
use ajit_segment_bots.Contracts.Rules.{has_part}
use ajit_segment_bots.Prelude.{
  String, [], if◌then◌else◌, str_eq, ◌∷◌, ◌≡◌, List, codes, keep_if, ok, refl, starts_with,
}
use ajit_segment_bots.Contracts.Sample.{sample_registry, registry_lawful}
use ajit_segment_bots.Board.{
  build_board_payload, Rung, declared_only, running, BoardPart, Source, board_parts, is_test,
  mentions_test, names_variant, only_tests, payload_from, probe_part_rung, rung_of, tested,
  with_test,
}

abbrev one_running : String → Rung
one_running i = if str_eq i "keeper" then running else declared_only

abbrev sample_parts : List BoardPart
sample_parts =
    record { part_id = "reader"; block = "feed"; rung = declared_only }
    ∷ record { part_id = "keeper"; block = "feed"; rung = running }
    ∷ []

built :
    build_board_payload one_running sample_registry
    ≡ ok (payload_from sample_registry [] sample_parts)
unfolding build_board_payload board_parts
built = rw registry_lawful refl

-- A part whose only files are tests is not implemented.
abbrev file_of : String → String → Source
file_of name directory = record {
  stem = codes name;
  filename = codes name;
  directory = codes directory;
  relative = name;
}

rungs :
    (probe_part_rung (codes "risk_gate" ∷ []) (file_of "test_risk_gate" "/x" ∷ [])
      ≡ (declared_only, only_tests (file_of "test_risk_gate" "/x")))
    × (probe_part_rung
          (codes "risk_gate" ∷ [])
          (file_of "risk_gate" "/x" ∷ file_of "risk_gate" "/tests" ∷ [])
        ≡ (tested, with_test (file_of "risk_gate" "/x") (file_of "risk_gate" "/tests")))
unfolding probe_part_rung names_variant is_test mentions_test keep_if has_part starts_with rung_of
rungs = (refl, refl)
