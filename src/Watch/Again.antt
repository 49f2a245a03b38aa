-- ===== src/Watch/Again.antt =====
-- The second of two passes over the same files.
use ajit_segment_bots.Dict
use ajit_segment_bots.Watch.Recheck.{
  recheck, recheck_present_path, recheck_present_paths, recheck_vanished_paths,
}
use ajit_segment_bots.Watch.Rest.{
  none_contained, present_paths-Agree, recheck-Settled, recheck-gone, step_keeps,
}
use ajit_segment_bots.Watch.Delivery.{digest_for_rejection_dedup}
use ajit_segment_bots.Watch.Pass.{
  after_present, after_vanished, contains-gone_paths, gone_paths, recheck-AllHeld, recheck-parts,
  sweep-log,
}
use ajit_segment_bots.Watch.Quiet.{
  Settled, load, recheck_present_path-quiet, rejection_key, shown_of_entries, unok,
}
use ajit_segment_bots.Settings.Reader.{Refusal, SettingsDocument}
use ajit_segment_bots.Settings.{Platform}
use ajit_segment_bots.Settings.Laws.{Distinguishes, load_ok_later, load_raise_later}
use ajit_segment_bots.Dict.{Dict, get, keys}
use ajit_segment_bots.Watch.{Consumer, Look, Watch}
use ajit_segment_bots.Watch.Held.{AllHeld, recheck_present_path-AllHeld}
use ajit_segment_bots.Watch.Settled.{Accepts}
use ajit_segment_bots.Prelude.{
  String, ◌≡◌, Bool, ◌++◌, Bool-cases, List, Result, [], ap, arith, contains, contains-sorted_set,
  false, inl, inr, none, ok, raise, refl, some, sorted_set, str_eq_refl, sym, true, ℕ, ◌∙◌, ◌∷◌,
}

-- The same files at another time.
abbrev pub later : ℕ → Look → Look
later n look = record look { now = n }

module _ (platform : Platform) (apart : Distinguishes platform) (consumer : Consumer) (look : Look)
    (n : ℕ) (p : String) where
  key_later :
      (f : Refusal)
      → rejection_key platform apart consumer (later n look) p f
        ≡ rejection_key platform apart consumer look p f
  unfolding digest_for_rejection_dedup
  key_later f = ground arith

  later_by :
      (w : Watch) (r : Result Refusal SettingsDocument)
      → load platform apart consumer look p ≡ r
      → Settled platform apart consumer look p w
      → Settled platform apart consumer (later n look) p w
  later_by w (raise f) h s = record {
    read_as = raise f;
    loads = load_raise_later platform p (platform.stem p) (look.read p) look.now n {f = f} h;
    document = λ d e. absurd (cc e);
    delivered = λ d e. absurd (cc e);
    idle = λ d e. absurd (cc e);
    reported = λ g e. s.reported g (sym s.loads ∙ h ∙ e) ∙ ap some (sym (key_later g));
  }
  later_by w (ok d) h s = record {
    read_as = ok (record d { parsed_at_ns = n });
    loads = load_ok_later platform p (platform.stem p) (look.read p) look.now n {d = d} h;
    document = λ d' e.
        let (held, is_held, shows) = s.document d (sym s.loads ∙ h) in
        (
          held,
          is_held,
          λ name.
              shows name
              ∙ shown_of_entries platform apart consumer look p d d'
                  (ap (λ (x : SettingsDocument). x.entries) (unok e)) name,
        );
    delivered = λ d' e name.
        s.delivered d (sym s.loads ∙ h) name
        ∙ shown_of_entries platform apart consumer look p d d'
            (ap (λ (x : SettingsDocument). x.entries) (unok e)) name;
    idle = λ d' e. s.idle d (sym s.loads ∙ h);
    reported = λ f e. absurd (cc e);
  }

  pub Settled-later :
      (w : Watch)
      → Settled platform apart consumer look p w
      → Settled platform apart consumer (later n look) p w
  Settled-later w s = later_by w (load platform apart consumer look p) refl s

module _ (platform : Platform) (apart : Distinguishes platform) (consumer : Consumer)
    (is_periodic : Bool) (look : Look) (accepts : Accepts consumer) where
  present_paths-quiet :
      (ps : List String) (w : Watch)
      → AllHeld platform w
      → ((p : String) → contains ps p ≡ true → Settled platform apart consumer look p w)
      → (recheck_present_paths platform consumer is_periodic look ps w).log ≡ w.log
  unfolding recheck_present_paths contains
  present_paths-quiet [] w all s = refl
  present_paths-quiet (q ∷ ps) w all s =
      present_paths-quiet ps (recheck_present_path platform consumer is_periodic look q w)
        (recheck_present_path-AllHeld platform consumer is_periodic look q w all)
        (λ p h.
          step_keeps platform apart consumer is_periodic look accepts p q w all
            (λ _. s p (ground (arith, h))))
      ∙ recheck_present_path-quiet platform apart consumer look q is_periodic w all
          (s q (ground (arith, str_eq_refl q)))

  nothing_gone :
      (w : Watch)
      → ((p : String) → contains look.listed p ≡ false → Dict.get w.known p ≡ none)
      → sorted_set (
          gone_paths platform consumer is_periodic look
            (after_present platform consumer is_periodic look w))
        ≡ []
  unfolding after_present
  nothing_gone w gone =
      let w₁ =
        recheck_present_paths platform consumer is_periodic look (sorted_set look.listed) w in
      none_contained (sorted_set (gone_paths platform consumer is_periodic look w₁)) λ p.
        contains-gone_paths platform consumer is_periodic look w₁ p
        ∙ elim (Bool-cases (contains look.listed p)) [
          | inl listed ↦ rw listed
          | inr unlisted ↦ ground (
            arith,
            gone p unlisted,
            (present_paths-Agree platform apart consumer is_periodic look p (sorted_set look.listed)
                w (contains-sorted_set look.listed p ∙ unlisted)).known,
          )
        ]

  -- A pass that has nothing to tell makes no call.
  recheck-quiet :
      (w : Watch)
      → AllHeld platform w
      → ((p : String) → contains look.listed p ≡ true → Settled platform apart consumer look p w)
      → ((p : String) → contains look.listed p ≡ false → Dict.get w.known p ≡ none)
      → (recheck platform consumer is_periodic look w).log ≡ w.log
  unfolding after_vanished after_present recheck_vanished_paths
  recheck-quiet w all s gone =
      let w₁ = after_present platform consumer is_periodic look w in
      rw (recheck-parts platform consumer is_periodic look w) (
        sweep-log platform consumer is_periodic look (look.listed ++ Dict.keys w₁.known)
          (after_vanished platform consumer is_periodic look w₁)
        ∙ ap (λ ps. (recheck_vanished_paths platform consumer is_periodic look ps w₁).log)
            (nothing_gone w gone)
        ∙ present_paths-quiet (sorted_set look.listed) w all
            (λ p h. s p (sym (contains-sorted_set look.listed p) ∙ h)))

-- If the digest tells bodies apart, no callback raises, and every document that is held was read
-- from its own path, then after a pass a second pass over the same files makes no call, whichever of
-- the two kinds each pass is of and whatever the clock then shows: nothing is reported twice.
pub recheck_again :
    (platform : Platform) (apart : Distinguishes platform) (consumer : Consumer)
    → Accepts consumer
    → (first second : Bool) (look : Look) (n : ℕ) (w : Watch) → AllHeld platform w
    → (recheck platform consumer second (later n look) (recheck platform consumer first look w)).log
      ≡ (recheck platform consumer first look w).log
recheck_again platform apart consumer accepts first second look n w all =
    recheck-quiet platform apart consumer second (later n look) accepts
      (recheck platform consumer first look w) (recheck-AllHeld platform consumer first look w all)
      (λ p listed.
        Settled-later platform apart consumer look n p (recheck platform consumer first look w)
          (recheck-Settled platform apart consumer first look accepts w all p listed).0)
      (λ p unlisted. recheck-gone platform apart consumer first look accepts w all p unlisted)
