-- ===== src/Preferences/Reset.antt =====
-- `load` of a table with a value that pydantic refuses, in app/preferences.py.
use hivesync.Prelude.{ℕ, ◌≡◌, ◌∙◌, ap, Bool, Option, none, some, Text, codes, arith}
use hivesync.Preferences.{
  SettingRows, lookup, stored_rows, defaults, model_validate, load, read_int, or_defaults,
}
use hivesync.Preferences.Kept.{lookup-stored_rows, of_rows-model_validate}

module _ (parse_int : Text → Option ℕ) (is_zone : Text → Bool) (table : SettingRows) (t : Text)
    (there : lookup (codes "pref.run_history_keep") table ≡ some t)
    (bad : read_int parse_int is_zone 10 10000 t ≡ none) where
  refused : model_validate parse_int is_zone (stored_rows table) ≡ none
  unfolding model_validate
  refused =
      let there' : lookup (codes "run_history_keep") (stored_rows table) ≡ some t =
        lookup-stored_rows (codes "run_history_keep") table ∙ there in
      ground (arith, there', bad)

  -- One stored number of runs that is out of its range, or no number, puts every preference back to
  -- its default, whatever the other rows say.
  pub one_bad_resets : load parse_int is_zone table ≡ defaults
  unfolding load
  one_bad_resets =
      of_rows-model_validate parse_int is_zone (stored_rows table)
      ∙ ap (or_defaults parse_int is_zone) refused
