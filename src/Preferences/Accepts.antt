-- ===== src/Preferences/Accepts.antt =====
-- What `parse` of src/preferences.cpp accepts can be saved and read again.
use ovmesh_drpp.Base.{[], some, ◌>>=◌, Bytes, length, codes, true, ◌≡◌}
use ovmesh_drpp.Preferences.{DesktopPreferences, validate_preferences}
use ovmesh_drpp.Preferences.Fields.{Fields, at, read_fields}
use ovmesh_drpp.Preferences.Parse.{
  parse, parse_values, parse_version, names_accepted, default_preferences,
}
use ovmesh_drpp.Preferences.Serialize.{serialize, settings, write_lines}
use ovmesh_drpp.Preferences.Sections.{InRange}
use ovmesh_drpp.Preferences.Gives.{Gives, some-Gives, bind-Gives, guard-Gives}
use ovmesh_drpp.Preferences.Ranges.{
  default-InRange, step, parse_general-InRange, parse_receiver-InRange, parse_rtl-InRange,
  parse_public_key-InRange,
}
use ovmesh_drpp.Preferences.BoardRanges.{parse_concentrators-InRange}
use ovmesh_drpp.Preferences.RoundTrip.{parse-serialize}
use ovmesh_drpp.Preferences.Size.{serialize_valid}

-- Settings whose fields are values of their types and that are valid.
abbrev IsReadable : DesktopPreferences → Type 0
IsReadable p = InRange p × (validate_preferences p ≡ true)

parse_values-IsReadable : (fields : Fields) → Gives IsReadable (parse_values fields)
unfolding parse_values
parse_values-IsReadable fields = guard-Gives IsReadable _ _ (λ _.
    step IsReadable (at (codes "version") fields >>= parse_version) _ (λ version.
      guard-Gives IsReadable (names_accepted version fields) _ (λ _.
        bind-Gives InRange IsReadable _ _
          (parse_general-InRange version fields default_preferences default-InRange)
          (λ a ha.
            bind-Gives InRange IsReadable _ _ (parse_receiver-InRange version fields a ha) (λ b hb.
              bind-Gives InRange IsReadable _ _ (parse_rtl-InRange version fields b hb) (λ c hc.
                bind-Gives InRange IsReadable _ _ (parse_concentrators-InRange version fields c hc)
                  (λ d hd.
                    bind-Gives InRange IsReadable _ _ (parse_public_key-InRange version fields d hd)
                      (λ e he.
                        guard-Gives IsReadable (validate_preferences e) _
                          (λ valid. some-Gives IsReadable e (he, valid))))))))))

parse-IsReadable : (input : Bytes) → Gives IsReadable (parse input)
unfolding parse
parse-IsReadable input =
    guard-Gives IsReadable _ _
      (λ _. step IsReadable (read_fields (length input) [] input) _ parse_values-IsReadable)

-- Whatever text, of any version, `parse` reads as settings, `serialize` writes these settings in the
-- present version, and `parse` reads the same settings from that text.
pub parse-serialize-parse :
    (input : Bytes) (p : DesktopPreferences)
    → parse input ≡ some p
    → (serialize p ≡ some (write_lines (settings p))) × (parse (write_lines (settings p)) ≡ some p)
parse-serialize-parse input p e =
    let (range, valid) = (parse-IsReadable input).holds p e in
    let written = serialize_valid p valid in
    (written, parse-serialize p (write_lines (settings p)) range written)
