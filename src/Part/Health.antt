-- ===== src/Part/Health.antt =====
-- What a part reports, and when it ends.
use mathlib.Core.List.{append-nil}
use mathlib.Core.Path.{subst}
use mathlib.Core.List.{append-nil, append_assoc}
use ajit_segment_bots.Control.{Refused, refused, unhashable}
use ajit_segment_bots.Part.{
  Loop, Next, Rate, Turn, going, run_turn, run_turns, stopped, take_command, tick_and_report,
  Answer, Ending, compute_tick_interval, continue_from, finish_turn, raised, returned, PartHealth,
  obey,
}
use ajit_segment_bots.Prelude.{
  ℕ, String, ◌+◌, ◌-◌, List, [], arith, none, raise, refl, some, ◌∷◌, ◌≡◌, ◌≤◌, ◌*◌, ◌<◌,
  Bool-cases, Option, ap, if◌then◌else◌, inl, inr, ok, str_eq, ◌∙◌, ◌++◌, leb, sym, ◌⊎◌,
}

ungo : {a b : Loop} → going a ≡ going b → a ≡ b
ungo h = cc

-- The refusals that turns met, and those that reports carry.
abbrev pub met_in : Option Answer → List Refused
met_in (some (raise (refused why))) = why ∷ []
met_in (some (raise unhashable)) = []
met_in (some (ok m)) = []
met_in none = []

abbrev pub refusals_met : List Turn → List Refused
refusals_met [] = []
refusals_met (turn ∷ turns) = met_in turn.pending ++ refusals_met turns

abbrev pub carried_by : Option Refused → List Refused
carried_by none = []
carried_by (some why) = why ∷ []

-- The last report stands first.
abbrev pub refusals_reported : List PartHealth → List Refused
refusals_reported [] = []
refusals_reported (r ∷ reports) = refusals_reported reports ++ carried_by r.refused_control_frame

module _ (part_id : String) (health_interval : ℕ) (rate : Rate) where
  -- A turn that met a refused frame, and at whose end the clock is at least one health interval past
  -- its origin, ends with a report that carries the refusal; the loop goes on, one tick is done, and
  -- the refusal is not kept to be repeated.
  run_turn-refused :
      (turn : Turn) (why : Refused) (s : Loop)
      → turn.pending ≡ some (raise (refused why))
      → health_interval ≤ s.clock + turn.elapsed
      → (s' : Loop) × (run_turn part_id health_interval rate turn s ≡ going s')
        × (s'.reports
            ≡ record {
              part_id = part_id;
              rate_ratio = rate;
              staleness = s.clock + turn.elapsed - s.last_tick_at;
              observed_at = turn.wall;
              refused_control_frame = some why;
            }
              ∷ s.reports)
        × (s'.refused_control_frame ≡ none)
        × (s'.ticks ≡ s.ticks + 1)
  unfolding run_turn tick_and_report take_command
  run_turn-refused turn why s met elapsed_by = (
    tick_and_report part_id health_interval rate turn
        (record s { refused_control_frame = some why; last_health_at = 0 }),
    ground (arith, met),
    ground arith,
    ground arith,
    ground arith,
  )

  -- What every turn keeps: the clock is not behind what it dated, and no refusal waits for a report
  -- after a turn that started at least one health interval after the clock's origin.
  pub record IsTimely (s : Loop) : Type 0 where
    pub ticked : s.last_tick_at ≤ s.clock
    pub reported : s.last_health_at ≤ s.clock
    pub told : s.refused_control_frame ≡ none
    pub started : health_interval ≤ s.clock

  turn-IsTimely :
      (turn : Turn) (s s' : Loop)
      → IsTimely s
      → run_turn part_id health_interval rate turn s ≡ going s'
      → IsTimely s'
  unfolding run_turn tick_and_report take_command
  turn-IsTimely turn s s' v h = ground (arith, v, h)

  ticks_once :
      (turn : Turn) (s : Loop)
      → (tick_and_report part_id health_interval rate turn s).ticks ≡ s.ticks + 1
  unfolding tick_and_report
  ticks_once turn s = ground arith

  -- What the end of a turn reports: the refusal that waits, if it waits for a report that is due.
  tick-reports :
      (turn : Turn) (s : Loop) (waiting : List Refused)
      → carried_by s.refused_control_frame ≡ waiting
      → (s.refused_control_frame ≡ none)
        ⊎ (health_interval ≤ s.clock + turn.elapsed - s.last_health_at)
      → refusals_reported (tick_and_report part_id health_interval rate turn s).reports
        ≡ refusals_reported s.reports ++ waiting
  unfolding tick_and_report
  tick-reports turn s waiting carried due =
      elim (Bool-cases (leb health_interval (s.clock + turn.elapsed - s.last_health_at))) [
        | inl reports_now ↦ rw reports_now (ap (◌++◌ (refusals_reported s.reports)) carried)
        | inr not_yet ↦
            let idle : s.refused_control_frame ≡ none = ground (arith, due, not_yet) in
            let nothing : waiting ≡ [] = sym carried ∙ ap carried_by idle in
            rw not_yet (
              sym (append-nil (refusals_reported s.reports))
              ∙ ap (◌++◌ (refusals_reported s.reports)) (sym nothing))
      ]

  obeyed-reports :
      (turn : Turn) (command : String) (s s' : Loop)
      → IsTimely s
      → finish_turn part_id health_interval rate turn (obey command s) ≡ going s'
      → refusals_reported s'.reports ≡ refusals_reported s.reports ++ []
  unfolding obey finish_turn
  obeyed-reports turn command s s' v k = elim (Bool-cases (str_eq command "off")) [
    | inl off ↦ absurd (cc (rw off at k))
    | inr stays ↦ elim (Bool-cases (str_eq command "report-health")) [
      | inl asks ↦
          subst (λ (z : Loop). refusals_reported z.reports ≡ refusals_reported s.reports ++ [])
            (ungo (rw (stays, asks) at k))
            (tick-reports turn (record s { last_health_at = 0 }) [] (ap carried_by v.told)
              (inl v.told))
      | inr idle ↦
          subst (λ (z : Loop). refusals_reported z.reports ≡ refusals_reported s.reports ++ [])
            (ungo (rw (stays, idle) at k))
            (tick-reports turn s [] (ap carried_by v.told) (inl v.told))
    ]
  ]

  turn-reports :
      (turn : Turn) (s s' : Loop)
      → IsTimely s
      → run_turn part_id health_interval rate turn s ≡ going s'
      → refusals_reported s'.reports ≡ refusals_reported s.reports ++ met_in turn.pending
  unfolding run_turn tick_and_report take_command
  turn-reports turn s s' v h = by_pending turn.pending h
    where
      by_pending :
          (pending : Option Answer)
          → finish_turn part_id health_interval rate turn (take_command pending s) ≡ going s'
          → refusals_reported s'.reports ≡ refusals_reported s.reports ++ met_in pending
      by_pending none k =
          subst (λ (z : Loop). refusals_reported z.reports ≡ refusals_reported s.reports ++ [])
            (ungo k) (tick-reports turn s [] (ap carried_by v.told) (inl v.told))
      by_pending (some (ok none)) k = cc k
      by_pending (some (raise unhashable)) k = cc k
      by_pending (some (raise (refused why))) k =
          subst
            (λ (z : Loop). refusals_reported z.reports ≡ refusals_reported s.reports ++ why ∷ [])
            (ungo k)
            (tick-reports turn (record s { refused_control_frame = some why; last_health_at = 0 })
              (why ∷ []) refl (inr (omega (arith, v.started))))
      by_pending (some (ok (some (command, payload)))) k = obeyed-reports turn command s s' v k

  -- What turns lead to from a loop that is timely.
  abbrev pub Tells : List Turn → Loop → Loop → Type 0
  Tells turns s s' =
      IsTimely s'
      × (refusals_reported s'.reports ≡ refusals_reported s.reports ++ refusals_met turns)

  resume :
      (turn : Turn) (turns : List Turn) (s s' : Loop)
      → IsTimely s
      → ((s₁ : Loop)
          → IsTimely s₁
          → run_turns part_id health_interval rate turns s₁ ≡ going s'
          → Tells turns s₁ s')
      → (n : Next) → run_turn part_id health_interval rate turn s ≡ n
      → continue_from part_id health_interval rate (run_turns part_id health_interval rate turns) n
        ≡ going s'
      → Tells (turn ∷ turns) s s'
  unfolding continue_from
  resume turn turns s s' v rest (stopped e) eq k = absurd (cc k)
  resume turn turns s s' v rest (going s₁) eq k =
      let (timely, told) = rest s₁ (turn-IsTimely turn s s₁ v eq) k in
      (
        timely,
        told
            ∙ ap (λ l. l ++ refusals_met turns) (turn-reports turn s s₁ v eq)
            ∙ append_assoc (refusals_reported s.reports) (met_in turn.pending) (refusals_met turns),
      )

  -- Take a loop that dated nothing after its clock, has no refusal waiting, and is at least one
  -- health interval past the clock's origin. If it is still going after any turns, all of that holds
  -- of it still, and the refusals that its reports carry are those that earlier reports carried and
  -- then those that the turns met, each once and in order: no refusal is left without a report.
  pub run_turns-IsTimely :
      (turns : List Turn) (s s' : Loop)
      → IsTimely s
      → run_turns part_id health_interval rate turns s ≡ going s'
      → IsTimely s'
        × (refusals_reported s'.reports ≡ refusals_reported s.reports ++ refusals_met turns)
  unfolding run_turns
  run_turns-IsTimely [] s s' v h =
      subst (λ (z : Loop). Tells [] s z) (ungo h)
        (v, sym (append-nil (refusals_reported s.reports)))
  run_turns-IsTimely (turn ∷ turns) s s' v h =
      resume turn turns s s' v (λ s₁ v₁ k. run_turns-IsTimely turns s₁ s' v₁ k)
        (run_turn part_id health_interval rate turn s) refl h

  -- What a turn ends the loop with, if it does.
  abbrev pub ends_with : Option Answer → Option Ending
  ends_with (some (ok none)) = some (returned 0)
  ends_with (some (ok (some (command, payload)))) =
      if str_eq command "off" then some (returned 0) else none
  ends_with (some (raise unhashable)) = some (raised unhashable)
  ends_with (some (raise (refused why))) = none
  ends_with none = none

  abbrev pub Ends : Option Ending → Next → Loop → Type 0
  Ends (some e) n s = n ≡ stopped e
  Ends none n s = (s' : Loop) × (n ≡ going s') × (s'.ticks ≡ s.ticks + 1)

  -- A turn ends the loop, and then without a tick, exactly if it met the command to turn off or a
  -- closed socket, with the status 0, or a frame whose command is a list or a dict, with the
  -- `TypeError`; any other turn does one tick and the loop goes on.
  pub run_turn-Ends :
      (turn : Turn) (s : Loop)
      → Ends (ends_with turn.pending) (run_turn part_id health_interval rate turn s) s
  unfolding run_turn take_command
  run_turn-Ends turn s = by_pending turn.pending
    where
      ticked :
          (s₁ : Loop)
          → s₁.ticks ≡ s.ticks
          → (tick_and_report part_id health_interval rate turn s₁).ticks ≡ s.ticks + 1
      ticked s₁ h = ticks_once turn s₁ ∙ ap (λ k. k + 1) h

      by_pending :
          (pending : Option Answer)
          → Ends
              (ends_with pending)
              (finish_turn part_id health_interval rate turn (take_command pending s))
              s
      by_pending none = (tick_and_report part_id health_interval rate turn s, refl, ticked s refl)
      by_pending (some (ok none)) = refl
      by_pending (some (raise unhashable)) = refl
      by_pending (some (raise (refused why))) =
          let s₁ = record s { refused_control_frame = some why; last_health_at = 0 } in
          (tick_and_report part_id health_interval rate turn s₁, refl, ticked s₁ refl)
      by_pending (some (ok (some (command, payload)))) = elim (Bool-cases (str_eq command "off")) [
        | inl off ↦ rw off refl
        | inr stays ↦ rw stays (elim (Bool-cases (str_eq command "report-health")) [
          | inl asks ↦
              let s₁ = record s { last_health_at = 0 } in
              (tick_and_report part_id health_interval rate turn s₁, rw asks, ticked s₁ refl)
          | inr idle ↦ (tick_and_report part_id health_interval rate turn s, rw idle, ticked s refl)
        ])
      ]

-- The ratios that are taken are those in (0, 1], and the interval between ticks is then not shorter
-- than the health interval, and equal to it at the full rate.
pub compute_tick_interval_lem :
    (health_interval : ℕ) (rate : Rate) {r : Rate}
    → compute_tick_interval health_interval rate ≡ ok r
    → (0 < rate.part)
      × (rate.part ≤ rate.whole)
      × (health_interval * r.whole ≤ r.part)
      × (rate.part ≡ rate.whole → r.part ≡ health_interval * r.whole)
unfolding compute_tick_interval
compute_tick_interval_lem health_interval rate {r} h =
    let bounds : (0 < rate.part) × (rate.part ≤ rate.whole) = ground (arith, h) in
    let value : (r.part ≡ health_interval * rate.whole) × (r.whole ≡ rate.part) =
      ground (arith, h) in
    (
      bounds.0,
      bounds.1,
      rw (value.0, value.1) (grind (arith, bounds.1)),
      λ e. rw (value.0, value.1) (rw e refl),
    )
