-- ===== src/Examples/Places.antt =====
-- Destinations of the three kinds, and a name that tries to leave its directory.
use hivesync.Prelude.{◌≡◌, refl, codes, arith}
use hivesync.Models.{other_share}
use hivesync.Archive.{raised, plan_for}
use hivesync.Archive.Paths.{is_remote_char}
use hivesync.Archive.Paths.Split.{IsRemote}
use hivesync.Archive.Slug.{slugify}
use hivesync.Archive.Slug.Safe.{IsSafe, slugify-IsSafe}
use hivesync.Archive.Placement.{IsRelative}
use hivesync.Archive.Refused.{root_directory_refused}
use hivesync.Examples.{photos}

slugify-IsSafe_example : IsSafe (slugify (codes " ../Nightly"))
slugify-IsSafe_example = slugify-IsSafe (codes " ../Nightly")

dst : IsRemote (codes "hs_dst")
unfolding is_remote_char
dst = record { long_enough = omega arith; name_chars = refl }

below_share : IsRelative (codes "hs_dst") (codes "media/photos")
below_share = record { remote = dst; one_line = refl; begins = refl; ends = refl }

share_root : IsRelative (codes "hs_dst") (codes "media")
share_root = record { remote = dst; one_line = refl; begins = refl; ends = refl }

root_directory_refused_example :
    plan_for photos (codes "hs_dst:/data") (codes "20240101")
    ≡ raised (other_share (codes "data") (codes "data.hivesync-archive"))
root_directory_refused_example =
    root_directory_refused photos (codes "20240101") (codes "hs_dst") b'd' (codes "ata") refl dst
      refl refl
