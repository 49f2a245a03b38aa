-- ===== src/Settings/Holder.antt =====
-- `LastKnownGoodSettings`: validate, then swap.
use ajit_segment_bots.Prelude.{
  ℕ, String, Option, none, some, List, Result, ok, raise, ◌>>=◌, str_eq, if◌then◌else◌,
}
use ajit_segment_bots.Settings.{Platform}
use ajit_segment_bots.Settings.Reader.{SettingsDocument, Refusal, message, load_settings_document}

pub record LastKnownGoodSettings : Type 0 where
  pub path : String
  pub scope : String
  pub current : SettingsDocument

pub record SettingsRejection : Type 0 where
  pub source_path : String
  pub reason : String
  pub rejected_at_ns : ℕ

module _ (platform : Platform) where
  unfoldable pub open_settings :
      String → String → Result String (List ℕ) → ℕ → Result Refusal LastKnownGoodSettings
  open_settings path scope read now = do
    document ← load_settings_document platform path scope read now
    ok (record { path = path; scope = scope; current = document })

  take_candidate :
      LastKnownGoodSettings
      → ℕ
      → Result Refusal SettingsDocument
      → LastKnownGoodSettings × Option SettingsRejection
  take_candidate s now (raise refusal) =
      (s, some (record { source_path = s.path; reason = message refusal; rejected_at_ns = now }))
  take_candidate s now (ok candidate) =
      if str_eq candidate.content_digest s.current.content_digest
      then (s, none)
      else (record s { current = candidate }, none)

  unfoldable pub offer_candidate :
      LastKnownGoodSettings
      → Result String (List ℕ)
      → ℕ
      → LastKnownGoodSettings × Option SettingsRejection
  unfolding take_candidate
  offer_candidate s read now =
      take_candidate s now (load_settings_document platform s.path s.scope read now)
