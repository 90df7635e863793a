-- ===== src/Examples/Secrets.antt =====
-- A password in a line of rclone's log.
use hivesync.Prelude.{◌≡◌, refl, false, List, [], ◌∷◌, Text, codes, contains, arith}
use hivesync.Redaction.{redactor, redact}
use hivesync.Redaction.Hidden.{redact-hides}

abbrev secrets : List Text
secrets = codes "abc" ∷ codes "hunter2" ∷ codes "hunter2hunter2" ∷ codes "hunter2" ∷ []

redact-hides_example :
    contains
      (redact (redactor secrets) (codes "user:hunter2 pass:hunter2hunter2"))
      (codes "hunter2")
    ≡ false
redact-hides_example =
    redact-hides secrets (codes "hunter2") (codes "user:hunter2 pass:hunter2hunter2") refl
      (omega arith) refl refl
