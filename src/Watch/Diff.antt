-- ===== src/Watch/Diff.antt =====
-- What a list of changes says: it is empty exactly for documents that show the same, and it takes
-- either document to the other.
use ajit_segment_bots.Prelude.{
  ℕ, String, ◌≡◌, refl, sym, ◌∙◌, ◌↔◌, false, List, [], ◌∷◌, ◌++◌, arith, eq_iff, str_eq, contains,
  contains-append, contains-sorted_set, sorted_set, if◌then◌else◌,
}
use ajit_segment_bots.Dict
use ajit_segment_bots.Dict.{contains-keys}
use ajit_segment_bots.Settings.Reader.{SettingsDocument}
use ajit_segment_bots.Watch.{SettingsChange}
use ajit_segment_bots.Watch.Compare.{shown, changes_among, compare_settings_documents}

-- A reader of the changes: the new value of the first change of the field, or what it had.
unfoldable pub patched : List SettingsChange → String → String → String
patched [] name old = old
patched (c ∷ cs) name old = if str_eq c.changed_field name then c.new_value else patched cs name old

-- The same backwards.
unfoldable pub unpatched : List SettingsChange → String → String → String
unpatched [] name new = new
unpatched (c ∷ cs) name new =
    if str_eq c.changed_field name then c.old_value else unpatched cs name new

unseen :
    (d : SettingsDocument) (name : String)
    → contains (Dict.keys d.entries) name ≡ false
    → shown d name ≡ ""
unfolding shown
unseen d name h = ground (arith, contains-keys d.entries name)

module _ (previous candidate : SettingsDocument) (now : ℕ) where
  names : List String
  names = sorted_set (Dict.keys previous.entries ++ Dict.keys candidate.entries)

  -- A name that the comparison does not visit is in neither document.
  unvisited :
      (name : String) → contains names name ≡ false → shown previous name ≡ shown candidate name
  unfolding names
  unvisited name h =
      let both = Dict.keys previous.entries ++ Dict.keys candidate.entries in
      let split = contains-append (Dict.keys previous.entries) (Dict.keys candidate.entries) name in
      unseen previous name (ground (arith, contains-sorted_set both name, split))
      ∙ sym (unseen candidate name (ground (arith, contains-sorted_set both name, split)))

  changes_among-patched :
      (ns : List String) (name : String)
      → patched (changes_among previous candidate now ns) name (shown previous name)
        ≡ (if contains ns name then shown candidate name else shown previous name)
  unfolding changes_among patched contains
  changes_among-patched [] name = refl
  changes_among-patched (n ∷ ns) name = ground (
    arith,
    changes_among-patched ns name,
    eq_iff n name,
    eq_iff (shown previous n) (shown candidate n),
  )

  changes_among-unpatched :
      (ns : List String) (name : String)
      → unpatched (changes_among previous candidate now ns) name (shown candidate name)
        ≡ (if contains ns name then shown previous name else shown candidate name)
  unfolding changes_among unpatched contains
  changes_among-unpatched [] name = refl
  changes_among-unpatched (n ∷ ns) name = ground (
    arith,
    changes_among-unpatched ns name,
    eq_iff n name,
    eq_iff (shown previous n) (shown candidate n),
  )

  -- The changes take what the previous document shows of any field to what the candidate shows,
  -- and read backwards they take it back.
  pub compare-patched :
      (name : String)
      → (patched (compare_settings_documents previous candidate now) name (shown previous name)
          ≡ shown candidate name)
        × (unpatched (compare_settings_documents previous candidate now) name (shown candidate name)
            ≡ shown previous name)
  unfolding compare_settings_documents names
  compare-patched name = (
    ground (arith, changes_among-patched names name, unvisited name),
    ground (arith, changes_among-unpatched names name, unvisited name),
  )

  changes_among-nil :
      (ns : List String)
      → ((name : String) → shown previous name ≡ shown candidate name)
      → changes_among previous candidate now ns ≡ []
  unfolding changes_among
  changes_among-nil [] h = refl
  changes_among-nil (n ∷ ns) h =
      ground (arith, changes_among-nil ns h, eq_iff (shown previous n) (shown candidate n), h n)

  -- Nothing is reported exactly if the two documents show the same of every field.
  pub compare-nil_iff :
      (compare_settings_documents previous candidate now ≡ [])
      ↔ ((name : String) → shown previous name ≡ shown candidate name)
  unfolding compare_settings_documents patched
  compare-nil_iff = (
    λ e name. ground (arith, e, (compare-patched name).0),
    λ h.
        changes_among-nil (sorted_set (Dict.keys previous.entries ++ Dict.keys candidate.entries))
          h,
  )
