-- ===== src/Server/VersionGuard.antt =====
-- internal/server/server.go: the verdict of detectVersion on the upstream's version.
use remnaguard.Prelude.{
  String, Bool, true, false, not, Option, none, some, ◌&&◌, ◌||◌, if◌then◌else◌, ◌==◌, ◌≡◌, ◌≢◌,
  ◌↔◌, inl, inr, refl, sym, ◌∙◌, arith, eq_iff, Bool-cases,
}
use remnaguard.Config.{Config}

-- isWriteUnsafeMismatch
unfoldable pub is_write_unsafe_mismatch : String → String → Bool
is_write_unsafe_mismatch got want = not (got == want)

abbrev pub verdict : Config → Bool → Option String → Bool
verdict cfg before none = before
verdict cfg before (some got) =
    if got == ""
    then before
    else got == cfg.compatibility.remnawave_version
      || (cfg.compatibility.allow_version_mismatch
          && not (is_write_unsafe_mismatch got cfg.compatibility.remnawave_version))

-- detectVersion: versionOK afterwards, from versionOK before and what DetectVersion gives, none for an error
unfoldable pub detect_version : Config → Bool → Option String → Bool
unfolding is_write_unsafe_mismatch
detect_version cfg before got =
    if not (cfg.compatibility.assume_version == "") then true else verdict cfg before got

module _ (cfg : Config) (assumed : (cfg.compatibility.assume_version == "") ≡ true) where
  opened :
      (o : Option String) (got : String)
      → o ≡ some got
      → detect_version cfg false o ≡ true
      → (got ≡ cfg.compatibility.remnawave_version) × (got ≢ "")
  unfolding detect_version is_write_unsafe_mismatch
  opened none got e h = absurd (ground (arith, e))
  opened (some s) got e h =
      let same : s ≡ got = ground (arith, e) in
      elim (Bool-cases (s == "")) [
        | inl b ↦ absurd (ground (arith, h, assumed, b))
        | inr b ↦ (
          sym same
              ∙ (eq_iff s cfg.compatibility.remnawave_version).0 (ground (arith, h, assumed, b)),
          λ blank. ground (arith, b, (eq_iff s "").1 (same ∙ blank)),
        )
      ]

  shut :
      (got : String)
      → got ≡ cfg.compatibility.remnawave_version
      → got ≢ ""
      → detect_version cfg false (some got) ≡ true
  unfolding detect_version
  shut got e named = elim (Bool-cases (got == "")) [
    | inl b ↦ absurd (named ((eq_iff got "").0 b))
    | inr b ↦ ground (arith, assumed, b, (eq_iff got cfg.compatibility.remnawave_version).1 e)
  ]

  unknown_shut : detect_version cfg false none ≡ false
  unfolding detect_version
  unknown_shut = ground (arith, assumed)

-- For a configuration that assumes no version, a guard that is shut stays shut if the upstream's version is not
-- found, and opens for a version exactly if that is the configured one and not blank, whether or not
-- a mismatch is allowed.
pub detect_version_iff :
    (cfg : Config)
    → cfg.compatibility.assume_version ≡ ""
    → (detect_version cfg false none ≡ false)
      × ((got : String)
          → (detect_version cfg false (some got) ≡ true)
            ↔ ((got ≡ cfg.compatibility.remnawave_version) × (got ≢ "")))
detect_version_iff cfg assumed =
    let blank = (eq_iff cfg.compatibility.assume_version "").1 assumed in
    (
      unknown_shut cfg blank,
      λ got. (opened cfg blank (some got) got refl, λ (e, named). shut cfg blank got e named),
    )
