-- ===== src/Settings/Laws.antt =====
-- What the reading of a settings file depends on, and what an offered candidate leaves behind.
use ajit_segment_bots.Prelude.{
  ℕ, String, ◌≡◌, sym, ◌∙◌, none, some, List, arith, str_eq, Result, ok, raise, Bool-cases,
  if◌then◌else◌,
}
use ajit_segment_bots.Settings.{Platform}
use ajit_segment_bots.Settings.Reader.{SettingsDocument, Refusal, message, load_settings_document}
use ajit_segment_bots.Settings.Holder.{LastKnownGoodSettings, offer_candidate}

-- The digest tells bodies apart.
abbrev pub Distinguishes : Platform → Type 0
Distinguishes platform = (a b : List ℕ) → platform.sha256 a ≡ platform.sha256 b → a ≡ b

module _ (platform : Platform) (path scope : String) where
  -- Reading again at another time gives the same document but for its time.
  pub load_ok_later :
      (read : Result String (List ℕ)) (t t' : ℕ) {d : SettingsDocument}
      → load_settings_document platform path scope read t ≡ ok d
      → load_settings_document platform path scope read t' ≡ ok (record d { parsed_at_ns = t' })
  unfolding load_settings_document
  load_ok_later (raise f) t t' h = cc
  load_ok_later (ok body) t t' h = ground arith

  pub load_raise_later :
      (read : Result String (List ℕ)) (t t' : ℕ) {f : Refusal}
      → load_settings_document platform path scope read t ≡ raise f
      → load_settings_document platform path scope read t' ≡ raise f
  unfolding load_settings_document
  load_raise_later (raise g) t t' h = ground arith
  load_raise_later (ok body) t t' h = ground arith

  pub digest_of_loaded :
      (body : List ℕ) (t : ℕ) {d : SettingsDocument}
      → load_settings_document platform path scope (ok body) t ≡ ok d
      → d.content_digest ≡ platform.sha256 body
  unfolding load_settings_document
  digest_of_loaded body t h = ground arith

  -- Two documents read from one path with one digest have the same entries.
  pub entries_of_digest :
      Distinguishes platform
      → (first read : Result String (List ℕ)) (t t' : ℕ) {d e : SettingsDocument}
      → load_settings_document platform path scope first t ≡ ok d
      → load_settings_document platform path scope read t' ≡ ok e
      → e.content_digest ≡ d.content_digest
      → e.entries ≡ d.entries
  unfolding load_settings_document
  entries_of_digest apart (raise g) read t t' h k same = cc
  entries_of_digest apart (ok body) (raise f) t t' h k same = cc
  entries_of_digest apart (ok body) (ok body') t t' {d} {e} h k same =
      let bodies : body' ≡ body =
        apart body' body
          (sym (digest_of_loaded body' t' {d = e} k) ∙ same ∙ digest_of_loaded body t {d = d} h) in
      let h' = load_ok_later (ok body) t t' {d = d} h in ground (arith, bodies, h')

module _ (platform : Platform) (s : LastKnownGoodSettings) (read : Result String (List ℕ))
    (t : ℕ) where
  -- A candidate that does not parse is reported, and nothing is swapped.
  pub offer_refused :
      {f : Refusal}
      → load_settings_document platform s.path s.scope read t ≡ raise f
      → offer_candidate platform s read t
        ≡ (s, some (record { source_path = s.path; reason = message f; rejected_at_ns = t }))
  unfolding offer_candidate
  offer_refused h = ground arith

  pub offer_taken :
      {d : SettingsDocument}
      → load_settings_document platform s.path s.scope read t ≡ ok d
      → offer_candidate platform s read t ≡ (
        if str_eq d.content_digest s.current.content_digest then s else record s { current = d },
        none,
      )
  unfolding offer_candidate
  offer_taken {d} h = ground (arith, Bool-cases (str_eq d.content_digest s.current.content_digest))
