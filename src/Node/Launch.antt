-- ===== src/Node/Launch.antt =====
-- `main` of crates/entmoot-node/src/main.rs: from the flags to a running node.
--
-- The files and the TOML parser are parameters.
mod Runs
use entmoot.Common.{
  ◌≡◌, refl, sym, ap, ◌∙◌, subst, ◌⊎◌, inl, inr, Bool, Option, Option-cases, none, some, List, [],
  Result, Result-cases, ok, err, ◌>>=◌, >>=-eq-ok, ok_or, Str, arith,
}
use entmoot.Config.{NodeConfig, default_node_config}
use entmoot.Config.Overrides.{Args, apply_args, is_open, apply_args_lem}
use entmoot.Auth.{sha256_hex}
use entmoot.Node.Mesh.{ZenohConfig}
use entmoot.Node.Tasks.{Task, StartError, World, run, shutdown, forwards}
use entmoot.Node.Tasks.Handle.{run-shutdown}

-- With the path that the context names.
pub data ConfigError : Type 0 where
  reading parsing : Str → ConfigError

-- How a call of `main` goes on: it prints and ends, it fails, or it holds a node until Ctrl-C.
pub data Outcome : Type 0 where
  printed : Str → Outcome
  config_error : ConfigError → Outcome
  start_error : StartError → Outcome
  holding : Bool → NodeConfig → List Task → Outcome

module _ (read_to_string : Str → Option Str) (from_str : Str → Option NodeConfig) where
  unfoldable pub load_config : Option Str → Result NodeConfig ConfigError
  load_config none = ok default_node_config
  load_config (some path) =
      ok_or (read_to_string path) (reading path) >>= λ raw. ok_or (from_str raw) (parsing path)

  module _ (digest : Str → Str) (debug_wide : Str → Str) (z : ZenohConfig) (w : World z) where
    -- The Boolean says whether it has warned of an open node.
    unfoldable pub hold : NodeConfig → Result (List Task) StartError → Outcome
    unfolding is_open
    hold cfg (err e) = start_error e
    hold cfg (ok handles) = holding (is_open cfg) cfg handles

    unfoldable pub launch : Args → Result NodeConfig ConfigError → Outcome
    unfolding hold apply_args
    launch args (err e) = config_error e
    launch args (ok cfg) = let cfg' = apply_args args cfg in hold cfg' (run debug_wide z w cfg').0

    unfoldable pub main_from : Args → Option Str → Outcome
    unfolding launch load_config
    main_from args none = launch args (load_config args.config)
    main_from args (some pw) = printed (sha256_hex digest pw)

    unfoldable pub main : Args → Outcome
    unfolding main_from
    main args = main_from args args.hash_password

    hold-holding :
        (cfg cfg' : NodeConfig) (warned : Bool) (handles : List Task)
        (r : Result (List Task) StartError)
        → hold cfg r ≡ holding warned cfg' handles
        → (r ≡ ok handles) × (cfg' ≡ cfg) × (warned ≡ is_open cfg)
    unfolding hold
    hold-holding cfg cfg' warned handles (err e) h = cc h
    hold-holding cfg cfg' warned handles (ok tasks) h = (cc h, cc h, cc h)

    -- What `main` holds comes of a file, and of the flags.
    pub record ComesOf (args : Args) (warned : Bool) (cfg file : NodeConfig) : Type 0 where
      pub overridden : cfg ≡ apply_args args file
      pub auth_kept : cfg.auth ≡ file.auth
      pub acl_kept : cfg.acl ≡ file.acl
      pub tls_kept : cfg.tls ≡ file.tls
      pub told : warned ≡ is_open file

    launch-holding :
        (args : Args) (cfg : NodeConfig) (warned : Bool) (handles : List Task)
        (loaded : Result NodeConfig ConfigError)
        → launch args loaded ≡ holding warned cfg handles
        → ((file : NodeConfig) × (loaded ≡ ok file) × ComesOf args warned cfg file)
          × (shutdown handles (run debug_wide z w cfg).1 ≡ forwards w.restores)
    unfolding launch
    launch-holding args cfg warned handles (err e) h = cc h
    launch-holding args cfg warned handles (ok file) h =
        let cfg' = apply_args args file in
        let (held, same, warns) =
          hold-holding cfg' cfg warned handles (run debug_wide z w cfg').0 h in
        let (auth, acl, tls, opened, twice) = apply_args_lem args file in
        (
          (
            file,
            refl,
            record {
              overridden = same;
              auth_kept = ap (λ (c : NodeConfig). c.auth) same ∙ auth;
              acl_kept = ap (λ (c : NodeConfig). c.acl) same ∙ acl;
              tls_kept = ap (λ (c : NodeConfig). c.tls) same ∙ tls;
              told = warns ∙ opened;
            },
          ),
          subst
              (λ (c : NodeConfig). shutdown handles (run debug_wide z w c).1 ≡ forwards w.restores)
              (sym same) (run-shutdown debug_wide z w cfg' handles held),
        )

    -- Where `main` holds a node, it was not asked for the hash of a password, and the file that it
    -- was given was read and parsed, or none was given and the defaults stand for it. The node runs
    -- under that file with the flags over it; no flag has touched the users, the rules or TLS, so
    -- that it has warned of an open node just if the file describes one. Aborting the tasks that it
    -- holds leaves those of the restored subscriptions.
    pub main-holding :
        (args : Args) (warned : Bool) (cfg : NodeConfig) (handles : List Task)
        → main args ≡ holding warned cfg handles
        → (args.hash_password ≡ none)
          × (((file : NodeConfig) × (load_config args.config ≡ ok file)
                × ComesOf args warned cfg file)
              × (shutdown handles (run debug_wide z w cfg).1 ≡ forwards w.restores))
    unfolding main main_from
    main-holding args warned cfg handles h = from args.hash_password h
      where
        from :
            (p : Option Str)
            → main_from args p ≡ holding warned cfg handles
            → (p ≡ none)
              × (((file : NodeConfig) × (load_config args.config ≡ ok file)
                    × ComesOf args warned cfg file)
                  × (shutdown handles (run debug_wide z w cfg).1 ≡ forwards w.restores))
        from none k = (refl, launch-holding args cfg warned handles (load_config args.config) k)
        from (some pw) k = cc k
