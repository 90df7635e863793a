-- ===== src/Remotes.antt =====
-- app/engines/rcloneconf.py: a connection as something that rclone can address. Decrypted secrets
-- and the forms that `rclone obscure` gives them are a parameter, `Secrets`.
pub mod Subpath
pub mod Env
pub mod Secrecy
use hivesync.Prelude.{
  ℕ, Bool, true, false, not, ◌&&◌, ◌||◌, Option, none, some, List, [], ◌∷◌, ◌++◌, Text, codes,
  text_eq, starts_with, strip, non_empty, decimal, ◌==◌, if◌then◌else◌, map, ◌⊎◌, inl, inr, refl,
  ◌≡◌,
}
use hivesync.Prelude.Parts.{split_at, join_with}
use hivesync.Models.{
  Connection, ConnectionType, local, sftp, ftp, ftps, smb, rclone_remote, RcloneMode, imported,
  inline,
}
use hivesync.Archive.Paths.{strip_slashes, rstrip_slashes}

-- `RemoteConfigError`
pub data RemoteError : Type 0 where
  no_share no_host outside_base no_remote_name no_backend_type no_user_config : RemoteError
  bad_credential : Text → RemoteError

pub data Resolved {ℓ} (A : Type ℓ) : Type ℓ where
  ok : A → Resolved A
  refused : RemoteError → Resolved A

pub Resolved-cases {ℓ} :
    {A : Type ℓ} (r : Resolved A) → ((a : A) × (r ≡ ok a)) ⊎ ((e : RemoteError) × (r ≡ refused e))
Resolved-cases (ok a) = inl (a, refl)
Resolved-cases (refused e) = inr (e, refl)

infixl 20 ◌>>=◌ ◌>>◌
abbrev pub ◌>>=◌ {ℓ κ} : {A : Type ℓ} {B : Type κ} → Resolved A → (A → Resolved B) → Resolved B
ok a >>= k = k a
refused e >>= k = refused e

abbrev pub ◌>>◌ {ℓ κ} : {A : Type ℓ} {B : Type κ} → Resolved A → Resolved B → Resolved B
m >> n = m >>= λ _. n

abbrev pub or_blank : Option Text → Text
or_blank none = []
or_blank (some t) = t

-- `subpath.replace("\\", "/")`
abbrev pub forward_slashes : Text → Text
forward_slashes s = map (λ c. if c == 92 then 47 else c) s

-- The loop over the parts: blank parts and `.` are passed over, `..` is refused.
unfoldable pub kept_parts : List Text → Resolved (List Text)
kept_parts [] = ok []
kept_parts (p ∷ ps) =
    let rest = kept_parts ps in
    if not (non_empty p) || text_eq p (codes ".")
    then rest
    else if text_eq p (codes "..")
    then refused outside_base
    else do kept ← rest; ok (p ∷ kept)

abbrev pub joined : Text → List Text → Text
joined base [] = base
joined [] (p ∷ ps) = join_with (codes "/") (p ∷ ps)
joined (b ∷ base) (p ∷ ps) =
    rstrip_slashes (b ∷ base) ++ (codes "/" ++ join_with (codes "/") (p ∷ ps))

-- A blank path has one blank part, which is passed over.
unfoldable pub join_subpath : Text → Option Text → Resolved Text
unfolding kept_parts
join_subpath base subpath = do
  kept ← kept_parts (split_at 47 (strip_slashes (forward_slashes (or_blank subpath))))
  ok (joined base kept)

abbrev pub share_path : Text → Text → Resolved Text
share_path [] base = refused no_share
share_path (c ∷ share) [] = ok (c ∷ share)
share_path (c ∷ share) (b ∷ base) = ok ((c ∷ share) ++ (codes "/" ++ (b ∷ base)))

abbrev pub or_root : Text → Text
or_root [] = codes "/"
or_root (c ∷ s) = c ∷ s

abbrev pub absolute_or_relative : Text → Text
absolute_or_relative raw =
    if starts_with raw (codes "/") then codes "/" ++ strip_slashes raw else strip_slashes raw

abbrev pub base_for_type : ConnectionType → Connection → Resolved Text
base_for_type smb c = share_path (strip_slashes (or_blank c.share)) (strip_slashes c.base_path)
base_for_type local c = ok (or_root c.base_path)
base_for_type rclone_remote c = ok (strip_slashes c.base_path)
base_for_type _ c = ok (absolute_or_relative c.base_path)

unfoldable pub base_path_for : Connection → Resolved Text
base_path_for c = base_for_type c.type c

unfoldable pub display_path : Connection → Option Text → Resolved Text
unfolding base_path_for join_subpath
display_path c subpath = do base ← base_path_for c; join_subpath base subpath
