-- ===== src/Manager/Main.antt =====
-- `main` of cmd/main.go.
pub mod Exit
use cluster_api_ipam_provide.Base.{ℕ, String, List, Result, ok, err, Effect, lift, wrapping}
use cluster_api_ipam_provide.Base.Errors.{Error}
use cluster_api_ipam_provide.Api.Scheme.{SchemeLibrary}
use cluster_api_ipam_provide.Manager.Config.{FlagLibrary, ManagerConfig, parse_flags}
use cluster_api_ipam_provide.Manager.Options.{
  ManagerOptions, make_tls_options, new_webhook_server_options, new_manager_options, new_scheme,
}
use cluster_api_ipam_provide.Manager.Builder.{Manager}
use cluster_api_ipam_provide.Manager.Setup.{Libraries, setup_indexes, setup_controllers, add_probes}

-- What the program is run with: `ctrl.NewManager` with the configuration of the cluster, and the
-- `AddToScheme` functions of the other libraries.
pub record Environment (W : Type 0) : Type 1 where
  pub flag_library : FlagLibrary
  pub scheme_library : SchemeLibrary
  pub add_others : List (scheme_library.Scheme → Result Error scheme_library.Scheme)
  pub new_manager : ManagerOptions scheme_library.Scheme → Effect W Error (Manager W)
  pub libraries : Libraries W

-- `os.Exit` with this code at an error
abbrev pub or_exit : {W A : Type 0} → ℕ → Result Error A × W → (A → W → ℕ × W) → ℕ × W
or_exit code (ok a, w) then = then a w
or_exit code (err e, w) then = (code, w)

module _ {W : Type 0} (E : Environment W) where
  abbrev pub run_manager : Manager W → W → ℕ × W
  run_manager mgr w = or_exit 1 (mgr.start w) (λ u w'. (0, w'))

  -- from SetupIndexes on
  unfoldable pub set_up_and_run :
      ManagerConfig E.flag_library.ManagerOptions → Manager W → W → ℕ × W
  set_up_and_run cfg mgr w = or_exit 1 (setup_indexes mgr w) (λ u w1.
      or_exit 1 (setup_controllers mgr E.libraries cfg.watch_filter cfg.netbox_request_timeout w1)
        (λ v w2. or_exit 1 (add_probes mgr w2) (λ x w3. run_manager mgr w3)))

  abbrev pub manager_options_for :
      ManagerConfig E.flag_library.ManagerOptions
      → E.scheme_library.Scheme
      → ManagerOptions E.scheme_library.Scheme
  manager_options_for cfg scheme =
      new_manager_options cfg scheme
        (new_webhook_server_options cfg (make_tls_options cfg.enable_http2))

  unfoldable pub start_with : ManagerConfig E.flag_library.ManagerOptions → W → ℕ × W
  start_with cfg w =
      or_exit 1 (new_scheme E.scheme_library E.add_others, w)
        (λ scheme w1.
          or_exit 1 (E.new_manager (manager_options_for cfg scheme) w1)
            (λ mgr w2. set_up_and_run cfg mgr w2))

  -- `main`: the exit code, 0 where it returns
  unfoldable pub main : List String → W → ℕ × W
  main args w = or_exit 2 (parse_flags E.flag_library args, w) (λ cfg w1. start_with cfg w1)
