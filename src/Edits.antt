-- ===== src/Edits.antt =====
-- dashboard/blueprint_edits/apply_2026-08-20_part_declarations.py and
-- dashboard/blueprint_edits/apply_2026-08-20_correct_live_decision_parts.py: the edits that give every
-- part its throttle facts, and that correct three of them. The registry is its list of features, whose
-- values are texts; an edit that raises writes nothing.
pub mod Defaults
pub mod Corrections
pub mod Settle
pub mod Kept
pub mod Ladder
mod Tests
