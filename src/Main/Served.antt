-- ===== src/Main/Served.antt =====
-- What the admin server of src/main.rs serves at the end of a run of the controller.
use sinker.Prelude.{◌≡◌, refl, ap, ◌∙◌, String, none, List, [], ◌++◌}
use sinker.Result.{Result, ok, err, panic}
use sinker.Kube.{Action}
use sinker.Kube.Libraries.{Libraries}
use sinker.Resources.{ResourceSync}
use sinker.Server.{Request, Server}
use sinker.ResourceExtensions.{Connections}
use sinker.Metrics.{default_metrics}
use sinker.Metrics.Registry.{
  Handle, Registry, Shared, no_collectors, create, register, write, exposed, dashboard, Owned,
  register_lem,
}
use sinker.Controller.Run.{Ended, Controlled, returned, run_with_metrics}
use sinker.Controller.Run.Outcome.{Ran, listed_once, run_with_metrics_lem}
use sinker.Main.{Args, Host, Runtime, Process, Finished, printed, failed, unwound, join, main}
use sinker.Main.Client.{LegacyClient, KubeClient, ClientError, controller_client}

-- The registry that the runtime's metrics and the controller's are registered in, the handle of the
-- latter, and their collectors at the start.
abbrev pub wired :
    {Options L Schema : Type 0} → Host Options L Schema → Handle × (Registry × Shared)
wired host = register (host.register_runtime []) no_collectors

-- The end of the process after that of the runtime.
pub record EndsAs (run : Result String (Unit {0})) (finished : Finished) : Type 0 where
  pub succeeded : run ≡ ok tt → finished ≡ printed ""
  pub failed_with : (e : String) → run ≡ err e → finished ≡ failed e
  pub unwinds : run ≡ panic → finished ≡ unwound

join-EndsAs :
    (run : Result String (Unit {0})) (actions : List Action)
    → EndsAs run (join (returned actions) run)
unfolding join
join-EndsAs (ok tt) actions = record {
  succeeded = λ h. refl;
  failed_with = λ e h. cc h;
  unwinds = λ h. cc h;
}
join-EndsAs (err x) actions = record {
  succeeded = λ h. cc h;
  failed_with = λ e h. cc h;
  unwinds = λ h. cc h;
}
join-EndsAs panic actions = record {
  succeeded = λ h. cc h;
  failed_with = λ e h. cc h;
  unwinds = λ h. refl;
}

module _ {Options W Parts Body Bytes Response X Schema K G : Type 0}
    (host : Host Options (LegacyClient W Parts Bytes Response X) Schema)
    (collect_bytes : Body → Result (ClientError X) Bytes) (lib : Libraries)
    (net : Connections (KubeClient W Parts Body Response X) K G)
    (server : Server (KubeClient W Parts Body Response X)) where
  abbrev run_of :
      Runtime (LegacyClient W Parts Bytes Response X)
      → List ResourceSync
      → List (Request (KubeClient W Parts Body Response X))
      → Ended × Controlled (KubeClient W Parts Body Response X)
  run_of rt syncs history =
      run_with_metrics lib net server syncs (controller_client collect_bytes rt.client) history
        default_metrics

  main-serve :
      (args : Args Options) (syncs : List ResourceSync)
      (history : List (Request (KubeClient W Parts Body Response X)))
      (rt : Runtime (LegacyClient W Parts Bytes Response X))
      → args.command ≡ none
      → host.build args.options (wired host).1.0 ≡ ok rt
      → main host collect_bytes lib net server args syncs history ≡ record {
        finished = join (run_of rt syncs history).0 rt.run;
        served = (wired host).1.0;
        shared = write 0 (run_of rt syncs history).1.metrics (wired host).1.1;
      }
  unfolding main register create write
  main-serve args syncs history rt none_given built = rw (none_given, built) refl

  -- If the runtime can be built, and the controller's run over kubert's client returns, the process ends
  -- as the runtime does: without output, with its error, or by its panic. The registry that the admin
  -- server has taken exposes what the runtime's metrics do, and after it the dashboard's series of the
  -- run's own collectors: each counter is the number of reconciliations with its outcome, one time has
  -- been observed for each, and no worker is active.
  pub main_lem :
      (args : Args Options) (syncs : List ResourceSync)
      (history : List (Request (KubeClient W Parts Body Response X)))
      (rt : Runtime (LegacyClient W Parts Bytes Response X)) (actions : List Action)
      → args.command ≡ none
      → Owned 0 (host.register_runtime [])
      → host.build args.options (wired host).1.0 ≡ ok rt
      → (run_with_metrics lib net server syncs
          (controller_client collect_bytes rt.client)
          history
          default_metrics).0
        ≡ returned actions
      → let p = main host collect_bytes lib net server args syncs history in
        let client = controller_client collect_bytes rt.client in
        let last = (run_with_metrics lib net server syncs client history default_metrics).1 in
        EndsAs rt.run p.finished
        × (exposed p.shared p.served
            ≡ exposed no_collectors (host.register_runtime []) ++ dashboard last.metrics)
        × Ran lib net server syncs client
            (listed_once lib net server client history default_metrics)
            last
            actions
  unfolding register create
  main_lem args syncs history rt actions none_given owned built h =
      let whole = main-serve args syncs history rt none_given built in
      let (ran, _, _) =
        run_with_metrics_lem lib net server syncs (controller_client collect_bytes rt.client)
          history default_metrics actions h in
      let m = (run_of rt syncs history).1.metrics in
      let (_, shown, _) = register_lem (host.register_runtime []) no_collectors m owned in
      (
        rw (ap (λ (p : Process). p.finished) whole, h) (join-EndsAs rt.run actions),
        ap (λ (p : Process). exposed p.shared p.served) whole ∙ shown,
        ran,
      )
