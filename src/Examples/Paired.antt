-- ===== src/Examples/Paired.antt =====
-- Two endpoints with a common hash, and one that was never tested.
use hivesync.Prelude.{◌≤◌, refl, true, none, some, [], ◌∷◌, Text, codes, length}
use hivesync.Models.{Job, Connection, checksum}
use hivesync.Capabilities.{Capabilities, intersect, blocked_reasons}
use hivesync.Capabilities.Agreed.{HasCommand, checksum_offered}
use hivesync.Capabilities.Unknown.{EachNames, unknown_not_unsupported}
use hivesync.Examples.{photos, disk}

abbrev hashing : Text → Connection
hashing root = record (disk root) { hashes = codes "md5" ∷ [] }

abbrev verified : Job
verified = record photos {
  compare_mode = checksum;
  source_connection = hashing (codes "/photos");
  dest_connection = hashing (codes "/backup");
}

abbrev tested : Capabilities
tested = record {
  hashes = codes "md5" ∷ [];
  features = (codes "Move", true) ∷ [];
  precision_ns = 1;
  probed_at = some 50;
}

checksum_offered_example :
    HasCommand verified
      (intersect 60 verified.source_connection verified.dest_connection tested
        tested).checksum.available
checksum_offered_example = checksum_offered 60 verified tested tested refl refl refl refl refl

abbrev untested : Capabilities
untested = record { hashes = []; features = []; precision_ns = 0; probed_at = none }

unknown_not_unsupported_example :
    EachNames
      (disk (codes "/a"))
      (disk (codes "/b"))
      tested
      untested
      (blocked_reasons (intersect 60 (disk (codes "/a")) (disk (codes "/b")) tested untested))
    × (3
        ≤ length (
            blocked_reasons (intersect 60 (disk (codes "/a")) (disk (codes "/b")) tested untested)))
unknown_not_unsupported_example =
    unknown_not_unsupported 60 (disk (codes "/a")) (disk (codes "/b")) tested untested refl
