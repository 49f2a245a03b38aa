-- ===== src/Watch/Frame.antt =====
-- What the treatment of one path leaves alone: everything that is remembered of another.
use ajit_segment_bots.Prelude.{
  ℕ, String, ◌≡◌, ◌≢◌, refl, ◌∙◌, Bool, true, false, List, [], ◌∷◌, arith, eq_iff, contains,
  if◌then◌else◌, contains-add_member, contains-discard_member,
}
use ajit_segment_bots.Dict
use ajit_segment_bots.Dict.{get-put, get-remove}
use ajit_segment_bots.Settings.Reader.{SettingsDocument}
use ajit_segment_bots.Settings.{Platform}
use ajit_segment_bots.Settings.Holder.{SettingsRejection}
use ajit_segment_bots.Watch.Compare.{compare_settings_documents}
use ajit_segment_bots.Watch.{clear_in_flight, Look, Watch, Consumer, SettingsChange}
use ajit_segment_bots.Watch.Delivery.{
  announce_changes, announce_overflow, deliver_diff, report_rejection_if_new,
  digest_for_rejection_dedup, overflow_owed,
}

-- Two states agree on all that they remember of a path.
pub record Agree (p : String) (w v : Watch) : Type 0 where
  pub known : Dict.get v.known p ≡ Dict.get w.known p
  pub last_delivered : Dict.get v.last_delivered p ≡ Dict.get w.last_delivered p
  pub pending : contains v.pending_overflow p ≡ contains w.pending_overflow p
  pub reported :
      Dict.get v.last_reported_rejection_digest p ≡ Dict.get w.last_reported_rejection_digest p

pub Agree-refl : (p : String) (w : Watch) → Agree p w w
Agree-refl p w = record { known = refl; last_delivered = refl; pending = refl; reported = refl }

pub Agree-trans : {p : String} {u v w : Watch} → Agree p u v → Agree p v w → Agree p u w
Agree-trans a b = record {
  known = b.known ∙ a.known;
  last_delivered = b.last_delivered ∙ a.last_delivered;
  pending = b.pending ∙ a.pending;
  reported = b.reported ∙ a.reported;
}

module _ (consumer : Consumer) (p q : String) (differ : q ≢ p) where
  announce_changes-Agree :
      (candidate : SettingsDocument) (changes : List SettingsChange) (w : Watch)
      → Agree p w (announce_changes consumer q candidate changes w).0
  unfolding announce_changes
  announce_changes-Agree candidate [] w = Agree-refl p w
  announce_changes-Agree candidate (c ∷ cs) w = record {
    known = ground arith;
    last_delivered = ground (arith, get-put w.last_delivered q candidate p, eq_iff q p);
    pending = ground arith;
    reported = ground arith;
  }

  announce_overflow-Agree :
      (owed : Bool) (w : Watch) → Agree p w (announce_overflow consumer q owed w)
  unfolding announce_overflow
  announce_overflow-Agree false w = Agree-refl p w
  announce_overflow-Agree true w = record {
    known = refl;
    last_delivered = refl;
    pending = ground (
      arith,
      contains-add_member w.pending_overflow q p,
      contains-discard_member w.pending_overflow q p,
      eq_iff q p,
      eq_iff p q,
    );
    reported = refl;
  }

  clear_in_flight-Agree : (w : Watch) → Agree p w (clear_in_flight q w)
  unfolding clear_in_flight
  clear_in_flight-Agree w = record {
    known = refl;
    last_delivered = refl;
    pending = refl;
    reported = refl;
  }

  pub resolve-Agree :
      (is_periodic : Bool) (w : Watch) → Agree p w (if is_periodic then w else clear_in_flight q w)
  resolve-Agree true w = Agree-refl p w
  resolve-Agree false w = clear_in_flight-Agree w

  pub deliver_diff-Agree :
      (previous candidate : SettingsDocument) (is_periodic : Bool) (now : ℕ) (w : Watch)
      → Agree p w (deliver_diff consumer q previous candidate is_periodic now w).0
  unfolding deliver_diff
  deliver_diff-Agree previous candidate is_periodic now w =
      let changes = compare_settings_documents previous candidate now in
      let w₁ = (announce_changes consumer q candidate changes w).0 in
      let owed = overflow_owed q is_periodic changes w₁ in
      Agree-trans (announce_changes-Agree candidate changes w) (
        Agree-trans (announce_overflow-Agree owed w₁)
          (resolve-Agree is_periodic (announce_overflow consumer q owed w₁)))

  pub report_rejection_if_new-Agree :
      (platform : Platform) (look : Look) (rejection : SettingsRejection) (w : Watch)
      → Agree p w (report_rejection_if_new consumer platform look q rejection w)
  unfolding report_rejection_if_new
  report_rejection_if_new-Agree platform look rejection w = record {
    known = ground arith;
    last_delivered = ground arith;
    pending = ground arith;
    reported = ground (
      arith,
      get-put w.last_reported_rejection_digest q
          (digest_for_rejection_dedup consumer platform look q rejection) p,
      eq_iff q p,
    );
  }
