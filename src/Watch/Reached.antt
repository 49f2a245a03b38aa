-- ===== src/Watch/Reached.antt =====
-- What holds of every state that a watch comes to.
use ajit_segment_bots.Watch.Seen.{AllSeen, WasRead, recheck-Seen}
use mathlib.Core.Path.{subst}
use ajit_segment_bots.Watch.Pass.{recheck-AllHeld}
use ajit_segment_bots.Watch.Delivery.{is_nonempty}
use ajit_segment_bots.Settings.Reader.{Refusal, SettingsDocument, load_settings_document}
use ajit_segment_bots.Settings.{Platform}
use ajit_segment_bots.Settings.Holder.{LastKnownGoodSettings, open_settings}
use ajit_segment_bots.Prelude.{
  Bool-cases, List, Result, String, [], ap, false, inl, inr, ok, raise, refl, some, sym, ℕ, ◌∙◌,
  ◌∷◌, ◌≡◌, Option-cases, arith, eq_iff, if◌then◌else◌, sorted_set, str_eq,
}
use ajit_segment_bots.Dict
use ajit_segment_bots.Dict.{Dict, get, put, get-put}
use ajit_segment_bots.Watch.{Watch, Look, Consumer, mark_in_flight, safely_call}
use ajit_segment_bots.Watch.Events.{
  Event, Reachable, catalog, cataloged, mark_all, matched_paths, on_any_event, open_watch,
  opened_with, passed, noticed, unopened,
}
use ajit_segment_bots.Watch.Held.{AllHeld, IsHeld, open_refused, open_taken}

module _ (platform : Platform) (consumer : Consumer) where
  opened_from :
      (p : String) (read : Result String (List ℕ)) (t : ℕ) (s : LastKnownGoodSettings)
      (r : Result Refusal SettingsDocument)
      → load_settings_document platform p (platform.stem p) read t ≡ r
      → open_settings platform p (platform.stem p) read t ≡ ok s
      → IsHeld platform p s
  opened_from p read t s (raise f) h e = absurd (cc (open_refused platform p read t {f = f} h, e))
  opened_from p read t s (ok d) h e =
      let same : record { path = p; scope = platform.stem p; current = d } ≡ s =
        cc (open_taken platform p read t {d = d} h, e) in
      subst (IsHeld platform p) same
        (record { path = refl; scope = refl; read = read; time = t; origin = h })

  cataloged-AllHeld :
      (look : Look) (p : String) (r : Result Refusal LastKnownGoodSettings) (w w' : Watch)
      → ((s : LastKnownGoodSettings) → r ≡ ok s → IsHeld platform p s)
      → AllHeld platform w
      → cataloged platform consumer look p r w ≡ some w'
      → AllHeld platform w'
  unfolding cataloged safely_call
  cataloged-AllHeld look p (raise f) w w' held all e =
      let same : w'.known ≡ w.known = ground (arith, e) in
      λ q s h. all q s (sym (ap (λ k. Dict.get k q) same) ∙ h)
  cataloged-AllHeld look p (ok settings) w w' held all e =
      let grown : w'.known ≡ Dict.put w.known p settings = ground (arith, e) in
      λ q s h.
        let got : (if str_eq p q then some settings else Dict.get w.known q) ≡ some s =
          sym (get-put w.known p settings q) ∙ sym (ap (λ k. Dict.get k q) grown) ∙ h in
        elim (Bool-cases (str_eq p q)) [
          | inl here ↦
              let path : p ≡ q = (eq_iff p q).0 here in
              let what : settings ≡ s = ground (arith, got, here) in
              subst (λ z. IsHeld platform z s) path
                (subst (IsHeld platform p) what (held settings refl))
          | inr there ↦ all q s (ground (arith, got, there))
        ]

  catalog-AllHeld :
      (look : Look) (ps : List String) (w w' : Watch)
      → AllHeld platform w
      → catalog platform consumer look ps w ≡ some w'
      → AllHeld platform w'
  unfolding catalog
  catalog-AllHeld look [] w w' all e = let same : w ≡ w' = cc e in subst (AllHeld platform) same all
  catalog-AllHeld look (p ∷ ps) w w' all e =
      let r = open_settings platform p (platform.stem p) (look.read p) look.now in
      elim (Option-cases (cataloged platform consumer look p r w)) [
        | inl fails ↦ absurd (ground (arith, e, fails))
        | inr (v, one) ↦
            catalog-AllHeld look ps v w'
              (cataloged-AllHeld look p r w v
                (λ s opens.
                  opened_from p (look.read p) look.now s
                    (load_settings_document platform p (platform.stem p) (look.read p) look.now)
                    refl opens)
                all one)
              (ground (arith, e, one))
      ]

  mark_all-known : (ps : List String) (w : Watch) → (mark_all ps w).known ≡ w.known
  unfolding mark_all
  mark_all-known [] w = refl
  mark_all-known (p ∷ ps) w = mark_all-known ps (mark_in_flight p w)

  event-AllHeld :
      (event : Event) (look : Look) (w : Watch)
      → AllHeld platform w
      → AllHeld platform (on_any_event platform consumer event look w)
  unfolding on_any_event
  event-AllHeld event look w all = elim (Bool-cases (is_nonempty (matched_paths event))) [
    | inl some_path ↦ rw some_path (
        recheck-AllHeld platform consumer false look (mark_all (matched_paths event) w) λ p s e.
          all p s (sym (ap (λ k. Dict.get k p) (mark_all-known (matched_paths event) w)) ∙ e))
    | inr nothing ↦ rw nothing all
  ]

  -- The constructor reads each path that it catalogs at its one look.
  opened-WasRead :
      (look : Look) (p : String) (s : LastKnownGoodSettings) (r : Result Refusal SettingsDocument)
      → load_settings_document platform p (platform.stem p) (look.read p) look.now ≡ r
      → open_settings platform p (platform.stem p) (look.read p) look.now ≡ ok s
      → WasRead platform p s look
  opened-WasRead look p s (raise f) h e =
      absurd (cc (open_refused platform p (look.read p) look.now {f = f} h, e))
  opened-WasRead look p s (ok d) h e =
      let same : record { path = p; scope = platform.stem p; current = d } ≡ s =
        cc (open_taken platform p (look.read p) look.now {d = d} h, e) in
      subst (λ z. WasRead platform p z look) same h

  cataloged-Seen :
      (look : Look) (p : String) (r : Result Refusal LastKnownGoodSettings) (w w' : Watch)
      → ((s : LastKnownGoodSettings) → r ≡ ok s → WasRead platform p s look)
      → AllSeen platform (look ∷ []) w
      → cataloged platform consumer look p r w ≡ some w'
      → AllSeen platform (look ∷ []) w'
  unfolding cataloged safely_call
  cataloged-Seen look p (raise f) w w' read all e =
      let same : w'.known ≡ w.known = ground (arith, e) in
      λ q s h. all q s (sym (ap (λ k. Dict.get k q) same) ∙ h)
  cataloged-Seen look p (ok settings) w w' read all e =
      let grown : w'.known ≡ Dict.put w.known p settings = ground (arith, e) in
      λ q s h.
        let got : (if str_eq p q then some settings else Dict.get w.known q) ≡ some s =
          sym (get-put w.known p settings q) ∙ sym (ap (λ k. Dict.get k q) grown) ∙ h in
        elim (Bool-cases (str_eq p q)) [
          | inl here ↦
              let path : p ≡ q = (eq_iff p q).0 here in
              let what : settings ≡ s = ground (arith, got, here) in
              inl (
                subst (λ z. WasRead platform z s look) path
                  (subst (λ z. WasRead platform p z look) what (read settings refl)))
          | inr there ↦ all q s (ground (arith, got, there))
        ]

  catalog-Seen :
      (look : Look) (ps : List String) (w w' : Watch)
      → AllSeen platform (look ∷ []) w
      → catalog platform consumer look ps w ≡ some w'
      → AllSeen platform (look ∷ []) w'
  unfolding catalog
  catalog-Seen look [] w w' all e =
      let same : w ≡ w' = cc e in subst (AllSeen platform (look ∷ [])) same all
  catalog-Seen look (p ∷ ps) w w' all e =
      let r = open_settings platform p (platform.stem p) (look.read p) look.now in
      elim (Option-cases (cataloged platform consumer look p r w)) [
        | inl fails ↦ absurd (ground (arith, e, fails))
        | inr (v, one) ↦
            catalog-Seen look ps v w'
              (cataloged-Seen look p r w v
                (λ s opens.
                  opened-WasRead look p s
                    (load_settings_document platform p (platform.stem p) (look.read p) look.now)
                    refl opens)
                all one)
              (ground (arith, e, one))
      ]

  event-Seen :
      (event : Event) (look : Look) (looks : List Look) (w : Watch)
      → AllHeld platform w
      → AllSeen platform looks w
      → AllSeen platform (look ∷ looks) (on_any_event platform consumer event look w)
  unfolding on_any_event
  event-Seen event look looks w all seen = elim (Bool-cases (is_nonempty (matched_paths event))) [
    | inl some_path ↦
        let marked : (p : String)
            → Dict.get (mark_all (matched_paths event) w).known p ≡ Dict.get w.known p =
          λ p. ap (λ k. Dict.get k p) (mark_all-known (matched_paths event) w) in
        rw some_path (
          recheck-Seen platform consumer false look looks (mark_all (matched_paths event) w)
            (λ p s e. all p s (sym (marked p) ∙ e)) (λ p s e. seen p s (sym (marked p) ∙ e)))
    | inr nothing ↦ rw nothing (λ p s e. inr (seen p s e))
  ]

  -- In every state that a watch comes to from its constructor by passes and events, each document that
  -- is held under a path is what one of the looks that the watch took, its constructor's or that of a
  -- pass, read at that path, under the scope that the path gives.
  pub Reachable-AllHeld :
      (looks : List Look) (w : Watch)
      → Reachable platform consumer looks w
      → AllHeld platform w × AllSeen platform looks w
  unfolding open_watch Dict.get
  Reachable-AllHeld _ _ (opened_with look w e) = (
    catalog-AllHeld look (sorted_set look.listed) unopened w (λ p s h. absurd (cc h)) e,
    catalog-Seen look (sorted_set look.listed) unopened w (λ p s h. absurd (cc h)) e,
  )
  Reachable-AllHeld _ _ (passed is_periodic look looks v r) =
      let (held, seen) = Reachable-AllHeld looks v r in
      (
        recheck-AllHeld platform consumer is_periodic look v held,
        recheck-Seen platform consumer is_periodic look looks v held seen,
      )
  Reachable-AllHeld _ _ (noticed event look looks v r) =
      let (held, seen) = Reachable-AllHeld looks v r in
      (event-AllHeld event look v held, event-Seen event look looks v held seen)
