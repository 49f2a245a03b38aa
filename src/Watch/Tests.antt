-- ===== src/Watch/Tests.antt =====
-- One settings file that is edited between two passes.
use ajit_segment_bots.Watch.Seen.{AllSeen}
use ajit_segment_bots.Settings.Holder.{open_settings}
use ajit_segment_bots.Watch.Events.{catalog, cataloged, open_watch, opened_with, passed}
use ajit_segment_bots.Watch.Reached.{Reachable-AllHeld}
use ajit_segment_bots.Watch.Isolation.{recheck_present_path-Agree}
use ajit_segment_bots.Watch.Rest.{recheck-gone}
use ajit_segment_bots.Watch.Again.{later, recheck_again}
use ajit_segment_bots.Watch.Compare.{compare_settings_documents, shown}
use ajit_segment_bots.Watch.Diff.{compare-patched, patched, unpatched}
use ajit_segment_bots.Settings.Laws.{Distinguishes}
use ajit_segment_bots.Watch.Held.{AllHeld}
use ajit_segment_bots.Watch.Frame.{Agree}
use ajit_segment_bots.Watch.Lifecycle.{
  WatchThreads, start, stop, constructed, observer_failed, raised, ended, unstarted,
}
use ajit_segment_bots.Prelude.{
  ◌+◌, ◌==◌, Bool-cases, List, Result, String, [], ap, arith, contains, eq_iff, false,
  if◌then◌else◌, inl, inr, keep_if, none, ok, raise, refl, str_eq, suc, sym, true, zero, ℕ, ◌∙◌,
  ◌∷◌, ◌≡◌, some, sorted_set,
}
use ajit_segment_bots.Dict
use ajit_segment_bots.Dict.{Dict, get, put}
use ajit_segment_bots.Settings.Reader.{
  SettingEntry, SettingsDocument, load_settings_document, get_field, load_entries, load_entry,
  missing_from, invalid_toml, message,
}
use ajit_segment_bots.Settings.{
  Platform, Fields, TomlValue, text, integer, table, field, end, to_text,
}
use ajit_segment_bots.Watch.{Watch, Look, Consumer, on_rejection, safely_call}
use ajit_segment_bots.Watch.Recheck.{recheck, recheck_present_path}
use Prim.Native.Char.{code}

-- A digest that tells bodies apart: each number in unary, and a stop.
abbrev unary : ℕ → String → String
unary zero s = String.◌∷◌ "b" s
unary (suc n) s = String.◌∷◌ "a" (unary n s)

abbrev spelled : List ℕ → String
spelled [] = ""
spelled (n ∷ ns) = unary n (spelled ns)

counted : ℕ → String → List ℕ
counted k String.[] = []
counted k (String.◌∷◌ c s) =
    let next = counted 0 s in
    let more = counted (suc k) s in if code c == 98 then k ∷ next else more

counted-unary : (k n : ℕ) (s : String) → counted k (unary n s) ≡ (n + k) ∷ counted 0 s
unfolding counted
counted-unary k zero s = ap (λ m. m ∷ counted 0 s) (omega arith)
counted-unary k (suc n) s = counted-unary (suc k) n s ∙ ap (λ m. m ∷ counted 0 s) (omega arith)

counted-spelled : (ns : List ℕ) → counted 0 (spelled ns) ≡ ns
unfolding counted
counted-spelled [] = refl
counted-spelled (n ∷ ns) =
    counted-unary 0 n (spelled ns)
    ∙ ap (λ m. m ∷ counted 0 (spelled ns)) (omega arith)
    ∙ ap (◌∷◌ n) (counted-spelled ns)

abbrev fields : ℕ → Fields
fields n =
    field "value" (integer false n) (field "unit" (text "ratio") (field "note" (text "set") end))

-- A parser that reads the first byte as the value of one setting.
abbrev parsed : List ℕ → Result String (Dict TomlValue)
parsed [] = raise "empty"
parsed (n ∷ ns) = ok (("gap", table "" (fields n)) ∷ [])

abbrev plain : Platform
plain = record { loads = parsed; sha256 = spelled; stem = λ p. p }

plain-Distinguishes : Distinguishes plain
plain-Distinguishes a b e = sym (counted-spelled a) ∙ ap (counted 0) e ∙ counted-spelled b

abbrev patient : Consumer
patient log call = true

abbrev entry : ℕ → SettingEntry
entry n = record { name = "gap"; value = integer false n; unit = "ratio"; note = "set" }

abbrev document : ℕ → SettingsDocument
document n = record {
  scope = "desk";
  entries = ("gap", entry n) ∷ [];
  source_path = "desk";
  content_digest = spelled (n ∷ []);
  parsed_at_ns = 1;
}

abbrev before_edit : Watch
before_edit = record {
  known = ("desk", record { path = "desk"; scope = "desk"; current = document 1 }) ∷ [];
  last_delivered = ("desk", document 1) ∷ [];
  pending_overflow = [];
  last_reported_rejection_digest = [];
  in_flight = [];
  log = [];
}

abbrev edited : Look
edited = record {
  listed = "desk" ∷ "odd" ∷ [];
  read = λ p. if str_eq p "desk" then ok (2 ∷ []) else ok [];
  reread = λ p. if str_eq p "desk" then ok (2 ∷ []) else ok [];
  now = 9;
}

parses : load_settings_document plain "desk" "desk" (ok (1 ∷ [])) 1 ≡ ok (document 1)
unfolding load_settings_document load_entries load_entry missing_from get_field keep_if Dict.get
    to_text Dict.put
parses = refl

before_edit-AllHeld : AllHeld plain before_edit
unfolding Dict.get
before_edit-AllHeld p s e = elim (Bool-cases (str_eq "desk" p)) [
  | inl same ↦
      let path : p ≡ "desk" = ground (arith, eq_iff "desk" p) in
      let held : s ≡ record { path = "desk"; scope = "desk"; current = document 1 } =
        ground (arith, e) in
      rw (held, path)
        (record { path = refl; scope = refl; read = ok (1 ∷ []); time = 1; origin = parses })
  | inr other ↦ absurd (ground (arith, e))
]

recheck_again_example :
    (recheck plain patient false
      (later 12 edited)
      (recheck plain patient true edited before_edit)).log
    ≡ (recheck plain patient true edited before_edit).log
recheck_again_example =
    recheck_again plain plain-Distinguishes patient (λ l c. refl) true false edited 12 before_edit
      before_edit-AllHeld

recheck-gone_example : Dict.get (recheck plain patient true edited before_edit).known "lost" ≡ none
recheck-gone_example =
    recheck-gone plain plain-Distinguishes patient true edited (λ l c. refl) before_edit
      before_edit-AllHeld "lost" (unfold contains in refl)

compare-patched_example :
    (patched
        (compare_settings_documents (document 1) (document 2) 9)
        "gap"
        (shown (document 1) "gap")
      ≡ shown (document 2) "gap")
    × (unpatched
          (compare_settings_documents (document 1) (document 2) 9)
          "gap"
          (shown (document 2) "gap")
        ≡ shown (document 1) "gap")
compare-patched_example = compare-patched (document 1) (document 2) 9 "gap"

recheck_present_path-Agree_example :
    Agree "odd" before_edit (recheck_present_path plain patient true edited "desk" before_edit)
recheck_present_path-Agree_example =
    recheck_present_path-Agree plain patient true edited "odd" "desk" (λ e. cc e) before_edit

abbrev at_start : Look
at_start = record {
  listed = "desk" ∷ "odd" ∷ [];
  read = λ p. if str_eq p "desk" then ok (1 ∷ []) else ok [];
  reread = λ p. if str_eq p "desk" then ok (1 ∷ []) else ok [];
  now = 1;
}

-- What the watch is after it opened.
abbrev after_opening : Watch
after_opening = record {
  known = ("desk", record { path = "desk"; scope = "desk"; current = document 1 }) ∷ [];
  last_delivered = ("desk", document 1) ∷ [];
  pending_overflow = [];
  last_reported_rejection_digest = [];
  in_flight = [];
  log =
      (
        on_rejection (record {
          source_path = "odd";
          reason = message (invalid_toml "odd" "empty");
          rejected_at_ns = 1;
        }),
        true,
      )
      ∷ [];
}

opens : open_watch plain patient at_start ≡ some after_opening
unfolding open_watch catalog cataloged open_settings load_settings_document load_entries load_entry
    missing_from get_field keep_if Dict.get to_text Dict.put safely_call sorted_set contains
opens = refl

Reachable-AllHeld_example :
    AllHeld plain (recheck plain patient true edited after_opening)
    × AllSeen plain (edited ∷ at_start ∷ []) (recheck plain patient true edited after_opening)
Reachable-AllHeld_example =
    Reachable-AllHeld plain patient (edited ∷ at_start ∷ [])
      (recheck plain patient true edited after_opening)
      (passed true edited (at_start ∷ []) after_opening (opened_with at_start after_opening opens))

-- A watch whose observer did not start: its periodic thread is joined.
abbrev failed_start : WatchThreads
failed_start = record {
  periodic = ended;
  observer = unstarted;
  stop_event = true;
  observer_stopping = false;
  periodic_thread_started = true;
  observer_started = false;
  stopped = true;
}

after_failed_start : start false constructed ≡ (failed_start, raised observer_failed)
unfolding start stop
after_failed_start = refl
