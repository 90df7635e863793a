-- ===== src/Capabilities.antt =====
-- app/capabilities.py: what two endpoints may do together. A reason is a constructor with the names
-- that its sentence has, and a time is in seconds.
pub mod Agreed
pub mod Unknown
use hivesync.Prelude.{
  ℕ, ◌+◌, Bool, true, false, not, ◌&&◌, ◌||◌, Option, none, some, List, [], ◌∷◌, ◌++◌, Text, codes,
  text_eq, ◌==◌, ltb, if◌then◌else◌, keep,
}
use hivesync.Models.{Connection}
use hivesync.Parsers.{member}

-- `STALE_PROBE_DAYS`, in seconds.
abbrev pub stale_probe : ℕ
stale_probe = 2592000

abbrev pub modtime_unsupported_precision : ℕ
modtime_unsupported_precision = 9223372036854775807

pub record Capabilities : Type 0 where
  pub hashes : List Text
  pub features : List (Text × Bool)
  pub precision_ns : ℕ
  pub probed_at : Option ℕ

-- `bool(self.features.get(key))`
abbrev pub feature : Text → List (Text × Bool) → Bool
feature key [] = false
feature key ((k, v) ∷ features) =
    let rest = feature key features in if text_eq k key then v else rest

abbrev pub can_set_modtime : Capabilities → Bool
can_set_modtime caps = not (caps.precision_ns == modtime_unsupported_precision)

abbrev pub supports_move : Capabilities → Bool
supports_move caps = feature (codes "Move") caps.features

abbrev pub supports_empty_dirs : Capabilities → Bool
supports_empty_dirs caps = feature (codes "CanHaveEmptyDirectories") caps.features

abbrev pub case_insensitive : Capabilities → Bool
case_insensitive caps = feature (codes "CaseInsensitive") caps.features

abbrev pub was_probed : Capabilities → Bool
was_probed caps = elim caps.probed_at [ none ↦ false | some t ↦ true ]

abbrev pub is_stale : ℕ → Capabilities → Bool
is_stale now caps = elim caps.probed_at [ none ↦ true | some t ↦ ltb (t + stale_probe) now ]

-- Why an option is not available.
pub data Blocked : Type 0 where
  unprobed : Text → Blocked
  exposes_no_hashes : List Text → Blocked
  share_no_hash : Blocked
  cannot_write_modtime : List Text → Blocked
  cannot_have_empty_dirs : List Text → Blocked

pub data Caution : Type 0 where
  slow_archive : Text → Caution
  case_collision : Text → Text → Caution
  stale : Text → Caution

pub record OptionAvailability : Type 0 where
  pub available : Bool
  pub reason : Option Blocked
  pub warning : Option Caution

abbrev pub is_available : OptionAvailability
is_available = record { available = true; reason = none; warning = none }

abbrev pub blocked_by : Blocked → OptionAvailability
blocked_by why = record { available = false; reason = some why; warning = none }

pub record Intersection : Type 0 where
  pub checksum : OptionAvailability
  pub bidirectional : OptionAvailability
  pub archive : OptionAvailability
  pub empty_dirs : OptionAvailability
  pub shared_hashes : List Text
  pub warnings : List Caution
  pub is_any_stale : Bool

abbrev pub is_empty : List Text → Bool
is_empty [] = true
is_empty (h ∷ hs) = false

-- `a == b` of two truth values.
abbrev pub same_case : Bool → Bool → Bool
same_case true b = b
same_case false b = not b

-- `a & b` of two sets.
abbrev pub shared : List Text → List Text → List Text
shared a b = keep (λ h. member h b) a

module _ (now : ℕ) (source dest : Connection) (a b : Capabilities) where
  -- The names of the endpoints for which the test fails.
  abbrev pub lacking : (Capabilities → Bool) → List Text
  lacking can = (if can a then [] else source.name ∷ []) ++ (if can b then [] else dest.name ∷ [])

  abbrev pub both_probed : Bool
  both_probed = was_probed a && was_probed b

  -- `source if not caps_a.probed else dest`
  abbrev pub first_unprobed : Text
  first_unprobed = if not (was_probed a) then source.name else dest.name

  -- The option that needs `can` of both, once both were probed.
  abbrev pub needs : (Capabilities → Bool) → (List Text → Blocked) → OptionAvailability
  needs can why =
      if not both_probed
      then blocked_by (unprobed first_unprobed)
      else if is_empty (lacking can)
      then is_available
      else blocked_by (why (lacking can))

  abbrev pub has_hashes : Capabilities → Bool
  has_hashes caps = not (is_empty caps.hashes)

  abbrev pub hash_reason : Blocked
  hash_reason =
      if is_empty (lacking has_hashes)
      then share_no_hash
      else exposes_no_hashes (lacking has_hashes)

  unfoldable pub checksum_of : OptionAvailability
  checksum_of =
      if not both_probed
      then blocked_by (unprobed first_unprobed)
      else if is_empty (shared a.hashes b.hashes)
      then blocked_by hash_reason
      else is_available

  abbrev pub archive_of : OptionAvailability
  archive_of =
      if not (was_probed b)
      then blocked_by (unprobed dest.name)
      else if supports_move b
      then is_available
      else record { available = true; reason = none; warning = some (slow_archive dest.name) }

  abbrev pub case_warnings : List Caution
  case_warnings =
      if both_probed && not (same_case (case_insensitive a) (case_insensitive b))
      then (if case_insensitive a
          then case_collision source.name dest.name ∷ []
          else case_collision dest.name source.name ∷ [])
      else []

  abbrev pub stale_warning : Text → Capabilities → List Caution
  stale_warning name caps = if was_probed caps && is_stale now caps then stale name ∷ [] else []

  abbrev pub listed : Option Caution → List Caution
  listed none = []
  listed (some w) = w ∷ []

  unfoldable pub intersect : Intersection
  unfolding checksum_of
  intersect = record {
    checksum = checksum_of;
    bidirectional = needs can_set_modtime cannot_write_modtime;
    archive = archive_of;
    empty_dirs = needs supports_empty_dirs cannot_have_empty_dirs;
    shared_hashes = shared a.hashes b.hashes;
    warnings =
        case_warnings
        ++ (listed archive_of.warning
            ++ (stale_warning source.name a ++ stale_warning dest.name b));
    is_any_stale = (was_probed a && is_stale now a) || (was_probed b && is_stale now b);
  }

-- `Intersection.blocked_reasons`
abbrev pub blocked_reason : OptionAvailability → List Blocked
blocked_reason o = if o.available then [] else elim o.reason [ none ↦ [] | some why ↦ why ∷ [] ]

unfoldable pub blocked_reasons : Intersection → List Blocked
blocked_reasons i =
    blocked_reason i.checksum
    ++ (blocked_reason i.bidirectional ++ (blocked_reason i.archive ++ blocked_reason i.empty_dirs))
