-- ===== src/Remotes/Env.antt =====
-- The environment and the argv of rclone, in app/engines/rcloneconf.py: `prepare` and what it calls.
-- `str.upper`, `str.splitlines` and the decryption with its obscuring are parameters.
use hivesync.Prelude.{
  ℕ, zero, suc, Bool, true, false, not, ◌&&◌, ◌||◌, Option, none, some, List, [], ◌∷◌, ◌++◌, Text,
  codes, text_eq, strip, non_empty, decimal, ◌==◌, if◌then◌else◌, any,
}
use hivesync.Prelude.Parts.{join_with}
use hivesync.Models.{
  Connection, ConnectionType, local, sftp, ftp, ftps, smb, rclone_remote, imported, inline,
}
use hivesync.Archive.Paths.{strip_slashes}
use hivesync.Remotes.{
  Resolved, ok, refused, ◌>>=◌, no_host, no_remote_name, no_backend_type, no_user_config, or_blank,
  base_path_for, join_subpath,
}

-- `env[key] = value`
abbrev pub set_env : Text → Text → List (Text × Text) → List (Text × Text)
set_env key value [] = (key, value) ∷ []
set_env key value ((k, v) ∷ env) =
    let rest = set_env key value env in if text_eq k key then (key, value) ∷ env else (k, v) ∷ rest

-- `env.update(other)`
abbrev pub update_env : List (Text × Text) → List (Text × Text) → List (Text × Text)
update_env env [] = env
update_env env ((k, v) ∷ other) = update_env (set_env k v env) other

-- `options[key]`
abbrev pub option_of : Text → List (Text × Text) → Text
option_of key [] = []
option_of key ((k, v) ∷ options) = if text_eq k key then v else option_of key options

pub record Secrets : Type 0 where
  pub options : List (Text × Text)
  pub redactable : List Text

pub record Endpoint : Type 0 where
  pub alias : Text
  pub path : Text
  pub env : List (Text × Text)
  pub redactable : List Text
  pub uses_user_config : Bool

pub record Prepared : Type 0 where
  pub endpoints : List (Text × Endpoint)
  pub env : List (Text × Text)
  pub base_args : List Text

-- `Endpoint.spec`
unfoldable pub spec : Endpoint → Option Text → Resolved Text
spec e subpath = do path ← join_subpath e.path subpath; ok (e.alias ++ (codes ":" ++ path))

-- `Prepared.argv`
unfoldable pub argv : Prepared → List Text → List Text
argv p args = codes "rclone" ∷ (p.base_args ++ (codes "--color" ∷ codes "NEVER" ∷ args))

abbrev pub or_default_domain : Text → Text
or_default_domain [] = codes "WORKGROUP"
or_default_domain (c ∷ s) = c ∷ s

abbrev pub is_smb : ConnectionType → Bool
is_smb smb = true
is_smb _ = false

abbrev pub is_sftp : ConnectionType → Bool
is_sftp sftp = true
is_sftp _ = false

-- `connection.port or 22`
abbrev pub port_or_22 : Option ℕ → ℕ
port_or_22 none = 22
port_or_22 (some zero) = 22
port_or_22 (some (suc n)) = suc n

module _ (upper : Text → Text) (lines : Text → List Text) where
  unfoldable pub env_var_name : Text → Text → Text
  env_var_name alias key = codes "RCLONE_CONFIG_" ++ (upper alias ++ (codes "_" ++ upper key))

  -- `put` of `_native_env`: a value that is missing or blank is not set.
  abbrev pub put_option : Text → Text → Option Text → List (Text × Text) → List (Text × Text)
  put_option alias key none env = env
  put_option alias key (some value) env =
      if non_empty value then set_env (env_var_name alias key) value env else env

  abbrev pub with_host : Text → Connection → List (Text × Text) → Resolved (List (Text × Text))
  with_host alias c env =
      if non_empty (or_blank c.host)
      then ok (
          put_option alias (codes "port") (elim c.port [ none ↦ none | some n ↦ some (decimal n) ])
            (put_option alias (codes "user") c.username
              (put_option alias (codes "host") c.host env)))
      else refused no_host

  -- `_native_env`, where the caller has taken care of rclone remotes.
  abbrev pub env_for_type : ConnectionType → Text → Connection → Resolved (List (Text × Text))
  env_for_type local alias c = ok (put_option alias (codes "type") (some (codes "local")) [])
  env_for_type sftp alias c =
      with_host alias c (put_option alias (codes "type") (some (codes "sftp")) [])
  env_for_type ftp alias c =
      with_host alias c (put_option alias (codes "type") (some (codes "ftp")) [])
  env_for_type ftps alias c = with_host alias c (
      put_option alias (codes "explicit_tls") (some (codes "true"))
        (put_option alias (codes "type") (some (codes "ftp")) []))
  env_for_type smb alias c = with_host alias c (
      put_option alias (codes "domain")
        (some (or_default_domain (option_of (codes "domain") c.extra_opts)))
        (put_option alias (codes "type") (some (codes "smb")) []))
  env_for_type rclone_remote alias c = ok []

  -- `_extra_opts_env`
  abbrev pub extra_opts_env :
      Text → ConnectionType → List (Text × Text) → List (Text × Text) → List (Text × Text)
  extra_opts_env alias type [] env = env
  extra_opts_env alias type ((k, v) ∷ opts) env = extra_opts_env alias type opts (
      if not (non_empty v) || (text_eq k (codes "domain") && is_smb type)
      then env
      else set_env (env_var_name alias k) v env)

  -- The decrypted options, each under its variable.
  abbrev pub secret_env : Text → List (Text × Text) → List (Text × Text) → List (Text × Text)
  secret_env alias [] env = env
  secret_env alias ((k, v) ∷ options) env =
      secret_env alias options (set_env (env_var_name alias k) v env)

  abbrev pub known_host_lines : Text → List Text → List Text
  known_host_lines target [] = []
  known_host_lines target (entry ∷ entries) =
      let rest = known_host_lines target entries in
      if non_empty (strip entry) then (target ++ (codes " " ++ strip entry)) ∷ rest else rest

  abbrev pub file_body : List Text → Option Text
  file_body [] = none
  file_body (l ∷ ls) = some (join_with (10 ∷ []) (l ∷ ls) ++ (10 ∷ []))

  unfoldable pub known_hosts_content : Connection → Option Text
  known_hosts_content c =
      let port = port_or_22 c.port in
      let target =
        if port == 22
        then or_blank c.host
        else codes "[" ++ (or_blank c.host ++ (codes "]:" ++ decimal port)) in
      if c.host_keys_trusted
      then file_body (known_host_lines target (lines (strip (or_blank c.host_keys))))
      else none

  module _ (secrets_of : Connection → Resolved Secrets) where
    unfoldable pub resolve_native : Connection → Text → Resolved Endpoint
    resolve_native c alias = do
      env ← env_for_type c.type alias c
      secrets ← secrets_of c
      path ← base_path_for c
      ok (record {
        alias = alias;
        path = path;
        env = extra_opts_env alias c.type c.extra_opts (secret_env alias secrets.options env);
        redactable = secrets.redactable;
        uses_user_config = false;
      })

    abbrev pub inline_endpoint : Connection → Text → Resolved Endpoint
    inline_endpoint c alias =
        if not (non_empty (strip (or_blank c.rclone_backend_type)))
        then refused no_backend_type
        else do
          secrets ← secrets_of c
          ok (record {
            alias = alias;
            path = strip_slashes c.base_path;
            env = extra_opts_env alias c.type c.extra_opts (
                secret_env alias secrets.options (
                  set_env (env_var_name alias (codes "type"))
                    (strip (or_blank c.rclone_backend_type)) []));
            redactable = secrets.redactable;
            uses_user_config = false;
          })

    abbrev pub imported_endpoint : Connection → Resolved Endpoint
    imported_endpoint c =
        if non_empty (strip (or_blank c.rclone_remote_name))
        then ok (record {
          alias = strip (or_blank c.rclone_remote_name);
          path = strip_slashes c.base_path;
          env = [];
          redactable = [];
          uses_user_config = true;
        })
        else refused no_remote_name

    unfoldable pub resolve_rclone_remote : Connection → Text → Resolved Endpoint
    resolve_rclone_remote c alias = elim c.rclone_mode [
      | none ↦ inline_endpoint c alias
      | some mode ↦ elim mode [ imported ↦ imported_endpoint c | inline ↦ inline_endpoint c alias ]
    ]

    abbrev pub resolve_typed : ConnectionType → Connection → Text → Resolved Endpoint
    resolve_typed rclone_remote c alias = resolve_rclone_remote c alias
    resolve_typed _ c alias = resolve_native c alias

    module _ (known_hosts_path : Text → Text) where
      -- The file of the pinned keys is named in the environment of an SFTP endpoint.
      abbrev pub with_known_hosts : Option Text → Text → Endpoint → Endpoint
      with_known_hosts none alias e = e
      with_known_hosts (some content) alias e = record e {
        env =
            set_env (env_var_name alias (codes "known_hosts_file")) (known_hosts_path alias) e.env;
      }

      abbrev pub pinned : Connection → Text → Endpoint → Endpoint
      pinned c alias e =
          if is_sftp c.type then with_known_hosts (known_hosts_content c) alias e else e

      -- The loop of `prepare`.
      unfoldable pub resolve_all : List (Text × Connection) → Resolved (List (Text × Endpoint))
      resolve_all [] = ok []
      resolve_all ((alias, c) ∷ rest) = do
        endpoint ← resolve_typed c.type c alias
        endpoints ← resolve_all rest
        ok ((alias, pinned c alias endpoint) ∷ endpoints)

      abbrev pub merged : List (Text × Endpoint) → List (Text × Text) → List (Text × Text)
      merged [] env = env
      merged ((alias, e) ∷ es) env = merged es (update_env env e.env)

      -- The arguments that name the configuration; `config_file` is the user's file if it is there.
      abbrev pub config_args : Option Text → Bool → Resolved (List Text)
      config_args config_file false = ok (codes "--config" ∷ [] ∷ [])
      config_args none true = refused no_user_config
      config_args (some path) true = ok (codes "--config" ∷ path ∷ [])

      unfoldable pub prepare : Option Text → List (Text × Connection) → Resolved Prepared
      prepare config_file connections = do
        endpoints ← resolve_all connections
        base_args ← config_args config_file (any (λ e. e.1.uses_user_config) endpoints)
        ok (record { endpoints = endpoints; env = merged endpoints []; base_args = base_args })
