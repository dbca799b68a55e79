-- ===== src/App/Loaded.antt =====
-- What the service can rely on after Load.
use Prim.Native.String.{String}
use secarch_tickets.Base.{
  ◌++◌, ◌≡◌, refl, ◌⊎◌, inl, inr, Bool, true, ◌||◌, not, Text, codes, List, [], ◌∷◌, list_eq,
  nat_eq, ◌==◌, Result, ok, err, wrap_err, >>=-eq-ok, ok-injective, ==-iff, is_empty, trim_space,
  CaseTables, require_all, require_all-ok, All, Bool-cases, arith,
}
use secarch_tickets.Connection
use secarch_tickets.Connection.{int_beq}
use secarch_tickets.Cmdb
use secarch_tickets.Cmdb.Settings.{IsPrepared, prepare_config-IsPrepared}
use secarch_tickets.Auth.Settings.{disabled, parse_config}
use secarch_tickets.Auth.Settings.Usable.{IsUsable, parse_config-IsUsable}
use secarch_tickets.App.{
  Config, Packages, TlsConfig, load, path_of, tls_of, server_of, server_checks, single_object,
  resolver, cmdb_with,
}

All-back : {A : Type 0} (P : A → Type 0) (xs ys : List A) → All P (xs ++ ys) → All P ys
All-back P [] ys h = h
All-back P (x ∷ xs) ys (p, h) = All-back P xs ys h

module _ ⦃c : CaseTables⦄ (lib : Packages) (rooted : (s : Text) → lib.is_abs (b'/' ∷ s) ≡ true)
    (directory_abs : (path base : Text) → lib.directory path ≡ ok base → lib.is_abs base ≡ true)
    (join_abs : (base path : Text)
      → lib.is_abs base ≡ true
      → lib.is_abs (lib.join_path base path) ≡ true) where
  path_of-abs :
      (base fallback v : Text)
      → lib.is_abs base ≡ true
      → lib.is_abs fallback ≡ true
      → lib.is_abs (path_of lib base fallback v) ≡ true
  path_of-abs base fallback v h k = elim (Bool-cases (is_empty (trim_space v))) [
    | inl e ↦ rw e k
    | inr e ↦ elim (Bool-cases (lib.is_abs (trim_space v))) [
      | inl a ↦ rw e (rw a a)
      | inr a ↦ rw e (rw a (join_abs base (trim_space v) h))
    ]
  ]

  -- Every certificate and key is named by an absolute path.
  abbrev pub IsAbsolute : TlsConfig → Type 0
  IsAbsolute t =
      (lib.is_abs t.server_cert ≡ true)
      × (lib.is_abs t.server_key ≡ true)
      × (lib.is_abs t.client_cert ≡ true)
      × (lib.is_abs t.client_key ≡ true)
      × (lib.is_abs t.ca_cert ≡ true)

  tls_of-IsAbsolute :
      (base environment : Text) (t : TlsConfig)
      → lib.is_abs base ≡ true
      → IsAbsolute (tls_of lib base environment t)
  tls_of-IsAbsolute base environment t h = (
    path_of-abs base _ t.server_cert h (rooted _),
    path_of-abs base _ t.server_key h (rooted _),
    path_of-abs base _ t.client_cert h (rooted _),
    path_of-abs base _ t.client_key h (rooted _),
    path_of-abs base _ t.ca_cert h (rooted _),
  )

  wrapped-ok : (m : String) {A : Type 0} (r : Result A) (a : A) → wrap_err m r ≡ ok a → r ≡ ok a
  wrapped-ok m (ok b) a h = ground arith
  wrapped-ok m (err e) a h = absurd (ground arith)

  -- The two clients present the certificates of the file, and trust its authority.
  abbrev pub SharesTls : Config → Type 0
  SharesTls cfg =
      (cfg.db.ssl_root_cert ≡ cfg.tls.ca_cert)
      × (cfg.db.ssl_cert ≡ cfg.tls.client_cert)
      × (cfg.db.ssl_key ≡ cfg.tls.client_key)
      × (cfg.cmdb.ca_cert_path ≡ cfg.tls.ca_cert)
      × (cfg.cmdb.client_cert_path ≡ cfg.tls.client_cert)
      × (cfg.cmdb.client_key_path ≡ cfg.tls.client_key)

  abbrev pub IsReady : Config → Type 0
  IsReady cfg =
      ((cfg.server.environment == codes "qa") || (cfg.server.environment == codes "prod") ≡ true)
      × (lib.splits cfg.server.listen_addr ≡ true)
      × IsAbsolute cfg.tls
      × SharesTls cfg
      × (int_beq cfg.db.port 5051 ≡ true)
      × (cfg.db.ssl_mode ≡ codes "verify-full")
      × IsPrepared cfg.cmdb
      × ((cfg.oidc ≡ disabled) ⊎ IsUsable lib.oidc cfg.oidc)

  prepared_db :
      (raw cfg : Connection.Config)
      → Connection.prepare_config raw ≡ ok cfg
      → (int_beq cfg.port 5051 ≡ true) × (cfg.ssl_mode ≡ codes "verify-full")
  unfolding Connection.prepare_config
  prepared_db raw cfg h =
      let ready = Connection.with_defaults raw in
      let (same, (_, held)) =
        require_all-ok
          ((not (is_empty ready.servers), "db_servers must contain at least one server")
              ∷ Connection.server_checks ready.servers
            ++ Connection.setting_checks ready)
          ready cfg h in
      let (port, (_, (_, (_, (mode, _))))) =
        All-back (λ (k : Bool × String). k.0 ≡ true) (Connection.server_checks ready.servers)
          (Connection.setting_checks ready) held in
      rw same (port, (==-iff ready.ssl_mode (codes "verify-full")).0 mode)

  -- The paths do not touch the numbers.
  shared_cmdb :
      (t : TlsConfig) (cmdb : Cmdb.Settings.Config)
      → IsPrepared cmdb
      → IsPrepared (cmdb_with lib t cmdb)
  shared_cmdb t cmdb q = record {
    http_timeout = q.http_timeout;
    success_cooldown = q.success_cooldown;
    failure_backoff = q.failure_backoff;
    multiplier = q.multiplier;
    threshold = q.threshold;
    circuit_open = q.circuit_open;
    batch_size = q.batch_size;
    page_size = q.page_size;
    max_concurrency = q.max_concurrency;
  }

  -- A configuration that is loaded has a known environment, an address to listen on, absolute paths of
  -- its certificates, which the database and the CMDB are given too, a database that is asked on its
  -- port with full verification, positive numbers for the CMDB (the timeout, the page and the batch
  -- size, the most requests at once, and those of the refresh control), and no OIDC or a usable one.
  pub load-IsReady : (path : Text) (cfg : Config) → load lib path ≡ ok cfg → IsReady cfg
  unfolding load
  load-IsReady path cfg h =
      let (decoded, _, h1) =
        >>=-eq-ok (wrap_err "decode app configuration" (lib.decode path)) _ h in
      let (input, _, h2) = >>=-eq-ok (single_object lib decoded) _ h1 in
      let (server, served, h3) =
        >>=-eq-ok
          (require_all (server_checks lib (server_of lib input.server))
            (server_of lib input.server))
          _ h2 in
      let (base, based, h4) =
        >>=-eq-ok (wrap_err "resolve app configuration directory" (lib.directory path)) _ h3 in
      let (db, stored, h5) =
        >>=-eq-ok (wrap_err "db configuration" (Connection.prepare_config input.db)) _ h4 in
      let (cmdb, asked, h6) =
        >>=-eq-ok
          (wrap_err "cmdb configuration" (Cmdb.Settings.prepare_config lib.parse_browse input.cmdb))
          _ h5 in
      let (oidc, signed, h7) = >>=-eq-ok (parse_config lib.oidc input.oidc) _ h6 in
      let (resolved, _, h8) = >>=-eq-ok (resolver lib input.proxy) _ h7 in
      let (chosen, (known, (split, _))) =
        require_all-ok (server_checks lib (server_of lib input.server)) (server_of lib input.server)
          server served in
      let base_abs =
        directory_abs path base (wrapped-ok "resolve app configuration directory" _ base based) in
      let (port, mode) = prepared_db input.db db (wrapped-ok "db configuration" _ db stored) in
      let t = tls_of lib base server.environment input.tls in
      let made = ok-injective h8 in
      rw (← made) (
        rw chosen known,
        rw chosen split,
        tls_of-IsAbsolute base server.environment input.tls base_abs,
        (refl, refl, refl, refl, refl, refl),
        port,
        mode,
        shared_cmdb t cmdb (
            prepare_config-IsPrepared lib.parse_browse input.cmdb cmdb
              (wrapped-ok "cmdb configuration" _ cmdb asked)),
        parse_config-IsUsable lib.oidc input.oidc oidc signed,
      )
