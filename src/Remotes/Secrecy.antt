-- ===== src/Remotes/Secrecy.antt =====
-- What `prepare` of app/engines/rcloneconf.py lets through to a command line.
use hivesync.Prelude.{
  ◌≡◌, refl, sym, ap, ◌∙◌, Bool, Bool-cases, Option, none, some, List, [], ◌∷◌, Text, any, arith,
  inl, inr,
}
use hivesync.Models.{
  Connection, ConnectionType, local, sftp, ftp, ftps, smb, rclone_remote, RcloneMode, imported,
  inline,
}
use hivesync.Remotes.{Resolved, Resolved-cases, ok, base_path_for}
use hivesync.Remotes.Env.{
  Secrets, Endpoint, Prepared, argv, env_for_type, resolve_native, resolve_rclone_remote,
  inline_endpoint, resolve_typed, pinned, resolve_all, config_args, prepare,
}

-- What of an endpoint can show in an argument: its alias, its path and whose configuration it needs.
abbrev pub seen : Endpoint → Text × Text × Bool
seen e = (e.alias, e.path, e.uses_user_config)

-- Each alias with what shows of its endpoint.
abbrev pub seen_all : List (Text × Endpoint) → List (Text × (Text × Text × Bool))
seen_all [] = []
seen_all ((alias, e) ∷ es) = (alias, seen e) ∷ seen_all es

module _ (upper : Text → Text) (lines : Text → List Text) (known_hosts_path : Text → Text)
    (s1 s2 : Connection → Resolved Secrets) where
  native-seen :
      (c : Connection) (alias : Text) {e1 e2 : Endpoint}
      → resolve_native upper lines s1 c alias ≡ ok e1
      → resolve_native upper lines s2 c alias ≡ ok e2
      → seen e1 ≡ seen e2
  unfolding resolve_native
  native-seen c alias h1 h2 = ground (
    arith,
    h1,
    h2,
    Resolved-cases (env_for_type upper lines c.type alias c),
    Resolved-cases (s1 c),
    Resolved-cases (s2 c),
    Resolved-cases (base_path_for c),
  )

  inline-seen :
      (c : Connection) (alias : Text) {e1 e2 : Endpoint}
      → inline_endpoint upper lines s1 c alias ≡ ok e1
      → inline_endpoint upper lines s2 c alias ≡ ok e2
      → seen e1 ≡ seen e2
  inline-seen c alias h1 h2 = ground (arith, h1, h2, Resolved-cases (s1 c), Resolved-cases (s2 c))

  remote-seen :
      (c : Connection) (alias : Text) (mode : Option RcloneMode) (e1 e2 : Endpoint)
      → c.rclone_mode ≡ mode
      → resolve_rclone_remote upper lines s1 c alias ≡ ok e1
      → resolve_rclone_remote upper lines s2 c alias ≡ ok e2
      → seen e1 ≡ seen e2
  unfolding resolve_rclone_remote
  remote-seen c alias none e1 e2 m h1 h2 =
      inline-seen c alias {e1 = e1} {e2 = e2} (ground (arith, m, h1)) (ground (arith, m, h2))
  remote-seen c alias (some inline) e1 e2 m h1 h2 =
      inline-seen c alias {e1 = e1} {e2 = e2} (ground (arith, m, h1)) (ground (arith, m, h2))
  remote-seen c alias (some imported) e1 e2 m h1 h2 = ground (arith, m, h1, h2)

  typed-seen :
      (type : ConnectionType) (c : Connection) (alias : Text) {e1 e2 : Endpoint}
      → resolve_typed upper lines s1 type c alias ≡ ok e1
      → resolve_typed upper lines s2 type c alias ≡ ok e2
      → seen e1 ≡ seen e2
  typed-seen rclone_remote c alias {e1} {e2} h1 h2 =
      remote-seen c alias c.rclone_mode e1 e2 refl h1 h2
  typed-seen local c alias h1 h2 = native-seen c alias h1 h2
  typed-seen sftp c alias h1 h2 = native-seen c alias h1 h2
  typed-seen ftp c alias h1 h2 = native-seen c alias h1 h2
  typed-seen ftps c alias h1 h2 = native-seen c alias h1 h2
  typed-seen smb c alias h1 h2 = native-seen c alias h1 h2

  pinned-seen :
      (s : Connection → Resolved Secrets) (c : Connection) (alias : Text) (e : Endpoint)
      → seen (pinned upper lines s known_hosts_path c alias e) ≡ seen e
  pinned-seen s c alias e = ground (arith, Bool-cases (c.host_keys_trusted))

  all-seen :
      (connections : List (Text × Connection)) {es1 es2 : List (Text × Endpoint)}
      → resolve_all upper lines s1 known_hosts_path connections ≡ ok es1
      → resolve_all upper lines s2 known_hosts_path connections ≡ ok es2
      → seen_all es1 ≡ seen_all es2
  unfolding resolve_all
  all-seen [] h1 h2 = ground (arith, h1, h2)
  all-seen ((alias, c) ∷ rest) h1 h2 =
      elim (Resolved-cases (resolve_typed upper lines s1 c.type c alias)) [
        | inr (e, r1) ↦ ground (arith, h1, r1)
        | inl (e1, r1) ↦ elim (Resolved-cases (resolve_typed upper lines s2 c.type c alias)) [
          | inr (e, r2) ↦ ground (arith, h2, r2)
          | inl (e2, r2) ↦
              elim (Resolved-cases (resolve_all upper lines s1 known_hosts_path rest)) [
                | inr (e, t1) ↦ ground (arith, h1, r1, t1)
                | inl (es1, t1) ↦
                    elim (Resolved-cases (resolve_all upper lines s2 known_hosts_path rest)) [
                      | inr (e, t2) ↦ ground (arith, h2, r2, t2)
                      | inl (es2, t2) ↦ ground (
                        arith,
                        h1,
                        h2,
                        r1,
                        r2,
                        t1,
                        t2,
                        typed-seen c.type c alias r1 r2,
                        all-seen rest t1 t2,
                        pinned-seen s1 c alias e1,
                        pinned-seen s2 c alias e2,
                      )
                    ]
              ]
        ]
      ]

  any-seen :
      (es : List (Text × Endpoint))
      → any (λ e. e.1.uses_user_config) es ≡ any (λ s. s.1.2) (seen_all es)
  any-seen [] = refl
  any-seen ((alias, e) ∷ es) = ground (arith, any-seen es)

  -- Whatever two sets of secrets the credentials decrypt to, as long as both are usable, the command
  -- line of rclone is the same for both, and so are the alias and the path of each endpoint: no
  -- secret shows in an argument.
  pub prepare_hides_secrets :
      (config_file : Option Text) (connections : List (Text × Connection)) (p1 p2 : Prepared)
      (args : List Text)
      → prepare upper lines s1 known_hosts_path config_file connections ≡ ok p1
      → prepare upper lines s2 known_hosts_path config_file connections ≡ ok p2
      → (argv p1 args ≡ argv p2 args) × (seen_all p1.endpoints ≡ seen_all p2.endpoints)
  unfolding prepare argv
  prepare_hides_secrets config_file connections p1 p2 args h1 h2 =
      elim (Resolved-cases (resolve_all upper lines s1 known_hosts_path connections)) [
        | inr (e, t1) ↦ ground (arith, h1, t1)
        | inl (es1, t1) ↦
            elim (Resolved-cases (resolve_all upper lines s2 known_hosts_path connections)) [
              | inr (e, t2) ↦ ground (arith, h2, t2)
              | inl (es2, t2) ↦
                  let same = all-seen connections t1 t2 in
                  let uses : any (λ e. e.1.uses_user_config) es1
                      ≡ any (λ e. e.1.uses_user_config) es2 =
                    any-seen es1 ∙ (ap (any (λ v. v.1.2)) same ∙ sym (any-seen es2)) in
                  ground (
                    arith,
                    h1,
                    h2,
                    t1,
                    t2,
                    same,
                    uses,
                    Resolved-cases (
                        config_args upper lines s1 known_hosts_path config_file
                          (any (λ e. e.1.uses_user_config) es1)),
                  )
            ]
      ]
