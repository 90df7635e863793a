-- ===== src/Examples/Settings.antt =====
-- The settings of an instance that keeps two hundred runs.
use hivesync.Prelude.{
  ℕ, ◌≡◌, refl, Bool, true, Option, some, [], ◌∷◌, Text, codes, read_digits, read_digits-decimal,
  strip, arith,
}
use hivesync.Preferences.{Preferences, defaults, SettingRows, lookup, save, load, ntfy, half_day}
use hivesync.Preferences.Kept.{IsValid, load-save}
use hivesync.Preferences.Reset.{one_bad_resets}

abbrev whole : Text → Option ℕ
whole t = read_digits 0 t

abbrev anywhere : Text → Bool
anywhere zone = true

abbrev chosen : Preferences
chosen = record defaults {
  notify_target = ntfy;
  archive_retention_days = some 30;
  run_history_keep = 500;
  display_timezone = codes "Europe/London";
  clock = half_day;
}

abbrev settings : SettingRows
settings =
    (codes "secret_key_fingerprint", codes "ab12")
    ∷ (codes "pref.run_history_keep", codes "many")
    ∷ (codes "pref.log_retention_days", codes "7")
    ∷ []

chosen-IsValid : IsValid anywhere chosen
unfolding strip
chosen-IsValid = record {
  timeout = (omega arith, omega arith);
  days = omega arith;
  history = (omega arith, omega arith);
  logs = (omega arith, omega arith);
  size = (omega arith, omega arith);
  at_once = omega arith;
  zone = refl;
  zone_known = refl;
}

load-save_example :
    (load whole anywhere (save chosen settings) ≡ chosen)
    × (lookup (codes "secret_key_fingerprint") (save chosen settings)
        ≡ lookup (codes "secret_key_fingerprint") settings)
load-save_example =
    load-save whole anywhere read_digits-decimal chosen settings (codes "secret_key_fingerprint")
      chosen-IsValid refl

one_bad_resets_example : load whole anywhere settings ≡ defaults
one_bad_resets_example = one_bad_resets whole anywhere settings (codes "many") refl refl
