-- ===== src/Manager/Main/Exit.antt =====
-- How the program ends.
use cluster_api_ipam_provide.Base.{
  ℕ, String, List, Result, ok, err, ◌≡◌, ◌≢◌, ◌↔◌, ◌<◌, arith, refl, sym, ap, ◌∙◌,
}
use cluster_api_ipam_provide.Base.Errors.{Error}
use cluster_api_ipam_provide.Manager.Config.{ManagerConfig, parse_flags}
use cluster_api_ipam_provide.Manager.Options.{new_scheme}
use cluster_api_ipam_provide.Manager.Builder.{Manager}
use cluster_api_ipam_provide.Manager.Setup.{setup_indexes, setup_controllers, add_probes}
use cluster_api_ipam_provide.Manager.Main.{
  Environment, or_exit, set_up_and_run, manager_options_for, start_with, main,
}

-- A step that does not end the program was a success.
or_exit_on :
    {W A : Type 0} (code n : ℕ) (r : Result Error A × W) (then : A → W → ℕ × W) (w' : W)
    → code ≢ n
    → or_exit code r then ≡ (n, w')
    → (a : A) × (w1 : W) × (r ≡ (ok a, w1)) × (then a w1 ≡ (n, w'))
or_exit_on code n (ok a, w) then w' ne h = (a, w, refl, h)
or_exit_on code n (err e, w) then w' ne h = absurd (ne (ap (λ p. p.0) h))

module _ {W : Type 0} (E : Environment W) where
  -- A run that ends well: every step of the preparation succeeded, in this order, before the manager was
  -- started, and it stopped with no error.
  pub data Ran (args : List String) (w w' : W) : Type 0 where
    ran :
        (cfg : ManagerConfig E.flag_library.ManagerOptions) (scheme : E.scheme_library.Scheme)
        (mgr : Manager W) (w1 w2 w3 w4 : W)
        → parse_flags E.flag_library args ≡ ok cfg
        → new_scheme E.scheme_library E.add_others ≡ ok scheme
        → E.new_manager (manager_options_for E cfg scheme) w ≡ (ok mgr, w1)
        → setup_indexes mgr w1 ≡ (ok tt, w2)
        → setup_controllers mgr E.libraries cfg.watch_filter cfg.netbox_request_timeout w2
          ≡ (ok tt, w3)
        → add_probes mgr w3 ≡ (ok tt, w4)
        → mgr.start w4 ≡ (ok tt, w')
        → Ran args w w'

  Ran-main : (args : List String) (w w' : W) → Ran args w w' → main E args w ≡ (0, w')
  unfolding main start_with set_up_and_run
  Ran-main args w w' (ran cfg scheme mgr w1 w2 w3 w4 ep es em ei ec ea er) =
      rw ep (rw es (rw em (rw ei (rw ec (rw ea (rw er refl))))))

  -- of a pair whose second part is known
  split :
      {A : Type 0} {r : Result Error A} {a : A} {w v : W}
      → ◌≡◌ {A = Result Error A × W} (r, w) (ok a, v)
      → (r ≡ ok a) × (w ≡ v)
  split e = (cc, cc)

  ended :
      {r : Result Error (Unit {0}) × W} {u v : W}
      → r ≡ (ok tt, u)
      → ◌≡◌ {A = ℕ × W} (0, u) (0, v)
      → r ≡ (ok tt, v)
  ended e f = cc

  main-Ran : (args : List String) (w w' : W) → main E args w ≡ (0, w') → Ran args w w'
  unfolding main start_with set_up_and_run
  main-Ran args w w' h =
      let (cfg, v, ep, h1) = or_exit_on 2 0 (parse_flags E.flag_library args, w) _ w' (λ e. cc) h in
      let (parsed, sv) = split ep in
      let (scheme, u, es, h2) =
        or_exit_on 1 0 (new_scheme E.scheme_library E.add_others, v) _ w' (λ e. cc) h1 in
      let (built, su) = split es in
      let (mgr, w1, em, h3) =
        or_exit_on 1 0 (E.new_manager (manager_options_for E cfg scheme) u) _ w' (λ e. cc) h2 in
      let (i, w2, ei, h4) = or_exit_on 1 0 (setup_indexes mgr w1) _ w' (λ e. cc) h3 in
      let (c, w3, ec, h5) =
        or_exit_on 1 0
          (setup_controllers mgr E.libraries cfg.watch_filter cfg.netbox_request_timeout w2) _ w'
          (λ e. cc) h4 in
      let (a, w4, ea, h6) = or_exit_on 1 0 (add_probes mgr w3) _ w' (λ e. cc) h5 in
      let (s, w5, er, h7) = or_exit_on 1 0 (mgr.start w4) _ w' (λ e. cc) h6 in
      ran cfg scheme mgr w1 w2 w3 w4 parsed built (rw (sym (sv ∙ su)) at em) ei ec ea
        (ended {u = w5} er h7)

  or_exit_small :
      {A : Type 0} (r : Result Error A × W) (then : A → W → ℕ × W)
      → ((a : A) (w : W) → (then a w).0 < 2)
      → (or_exit 1 r then).0 < 2
  or_exit_small (ok a, w) then k = k a w
  or_exit_small (err e, w) then k = omega arith

  start_with_small :
      (cfg : ManagerConfig E.flag_library.ManagerOptions) (w : W) → (start_with E cfg w).0 < 2
  unfolding start_with set_up_and_run
  start_with_small cfg w =
      or_exit_small (new_scheme E.scheme_library E.add_others, w) _
        (λ scheme w1.
          or_exit_small (E.new_manager (manager_options_for E cfg scheme) w1) _ (λ mgr w2.
            or_exit_small (setup_indexes mgr w2) _ (λ i w3.
              or_exit_small
                (setup_controllers mgr E.libraries cfg.watch_filter cfg.netbox_request_timeout w3) _
                (λ c w4.
                  or_exit_small (add_probes mgr w4) _
                    (λ a w5. or_exit_small (mgr.start w5) _ (λ u w6. omega arith))))))

  refused :
      (args : List String) (w : W) (r : Result Error (ManagerConfig E.flag_library.ManagerOptions))
      → (or_exit 2 (r, w) (λ cfg w1. start_with E cfg w1)).0 ≡ 2
      → (e : Error) × (r ≡ err e)
  refused args w (err e) h = (e, refl)
  refused args w (ok cfg) h = absurd (omega (arith, start_with_small cfg w))

  -- The program exits with 0 exactly when its flags, its scheme, its manager, the indexes, the three
  -- controllers and the probes were all accepted, in this order, before the manager ran and stopped
  -- with no error; and it exits with 2 exactly when the flags are refused.
  pub main_exit_iff :
      (args : List String) (w w' : W)
      → ((main E args w ≡ (0, w')) ↔ Ran args w w')
        × (((main E args w).0 ≡ 2) ↔ ((e : Error) × (parse_flags E.flag_library args ≡ err e)))
  unfolding main
  main_exit_iff args w w' = (
    (main-Ran args w w', Ran-main args w w'),
    (
      refused args w (parse_flags E.flag_library args),
      (λ g. ap (λ r. (or_exit 2 (r, w) (λ cfg w1. start_with E cfg w1)).0) g.1),
    ),
  )
