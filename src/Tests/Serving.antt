-- ===== src/Tests/Serving.antt =====
-- The process of src/main.rs with a runtime that can be built, and a run over one ResourceSync.
use sinker.Prelude.{◌≡◌, refl, String, none, List, [], ◌∷◌, ◌++◌}
use sinker.Result.{Result, ok, err}
use sinker.Kube.{await_change, other}
use sinker.Server.{Server}
use sinker.ResourceExtensions.{Connections}
use sinker.Metrics.{default_metrics}
use sinker.Metrics.Registry.{Sample, times, foreign, exposed, dashboard}
use sinker.Controller.Run.{returned, run_with_metrics}
use sinker.Controller.Run.Outcome.{Ran, listed_once}
use sinker.Main.{Args, Host, main}
use sinker.Main.Client.{
  HttpRequest, ClientError, LegacyClient, KubeClient, LegacyError, Shows, controller_client,
  controller_client_lem,
}
use sinker.Main.Served.{EndsAs, main_lem}
use sinker.Tests.Fixtures.{lib, sync, respond, source_config}

abbrev collect : String → Result (ClientError String) String
collect bytes = ok bytes

-- A transport that keeps the bodies that it has sent, and one whose connection is reset.
abbrev transport : LegacyClient (List String) String String String String
transport = record {
  default_namespace = "workloads";
  send = λ request seen. (ok "response body", request.body ∷ seen);
}

abbrev resetting : LegacyClient (List String) String String String String
resetting = record {
  default_namespace = "workloads";
  send = λ request seen. (err (LegacyError.service "reset"), request.body ∷ seen);
}

abbrev request : HttpRequest String String
request = record { parts = "PATCH"; body = "{}" }

controller_client_lem_example :
    ((c : ClientError String) × (((controller_client collect resetting).service request []).0
        ≡ err c)
      × Shows (LegacyError.service "reset") c)
    × (((controller_client collect resetting).service request []).1 ≡ "{}" ∷ [])
controller_client_lem_example = controller_client_lem collect resetting request [] "{}" refl

abbrev runtime_sample : Sample
runtime_sample = record {
  labels = [];
  name = "client_response_duration_seconds";
  series = times (record { buckets = []; observed = 7 ∷ [] });
}

abbrev host : Host String (LegacyClient (List String) String String String String) String
host = record {
  register_runtime = λ registry. registry ++ foreign runtime_sample ∷ [];
  build = λ options registry. ok (record { client = transport; run = ok tt });
  sync_crd = record { name = none; scope = "Namespaced"; versions = [] };
  container_crd = record { name = none; scope = "Namespaced"; versions = [] };
  schema_from_str = ok;
  to_yaml = λ crd. ok crd.scope;
}

abbrev no_net : Connections (KubeClient (List String) String String String String) String String
no_net = record {
  from_utf8 = λ bytes. ok "kubeconfig";
  from_yaml = ok;
  from_custom_kubeconfig = ok;
  set_default_namespace = λ ns config. config;
  try_from = λ config. err (other "refused");
}

abbrev served : Server (KubeClient (List String) String String String String)
served = record { answer = λ history. respond (ok source_config); now = λ history. 20 }

abbrev arguments : Args String
arguments = record { options = "plain"; command = none }

copied :
    (run_with_metrics lib no_net served
      (sync ∷ [])
      (controller_client collect transport)
      []
      default_metrics).0
    ≡ returned (await_change ∷ [])
unfolding run_with_metrics sinker.Controller.Reconcile.reconcile sinker.Exec.◌>>=◌ sinker.Exec.try
    sinker.Controller.Reconcile.reconcile_helper sinker.Controller.Reconcile.source_and_target_apis
    sinker.ResourceExtensions.Api.api_for sinker.ResourceExtensions.Api.cluster_client
    sinker.Resources.group_version_kind sinker.Exec.convert sinker.Exec.send
    sinker.Controller.Reconcile.reconcile_with sinker.ResourceExtensions.has_been_deleted
    sinker.ResourceExtensions.has_target_finalizer sinker.Controller.Reconcile.reconcile_normally
    sinker.Controller.Reconcile.target_for sinker.Mapping.clone_resource
    sinker.Controller.Reconcile.own_local_target sinker.Exec.◌>>◌
    sinker.ResourceExtensions.start_remote_watches_if_not_watching sinker.Exec.manage
    sinker.Controller.Reconcile.live_status sinker.Exec.clock sinker.Controller.reconcile_status
copied = refl

main_lem_example :
    let p = main host collect lib no_net served arguments (sync ∷ []) [] in
    let client = controller_client collect transport in
    let last = (run_with_metrics lib no_net served (sync ∷ []) client [] default_metrics).1 in
    EndsAs (ok tt) p.finished
    × (exposed p.shared p.served ≡ runtime_sample ∷ [] ++ dashboard last.metrics)
    × Ran lib no_net served
        (sync ∷ [])
        client
        (listed_once lib no_net served client [] default_metrics)
        last
        (await_change ∷ [])
main_lem_example =
    main_lem host collect lib no_net served arguments (sync ∷ []) []
      (record { client = transport; run = ok tt }) (await_change ∷ []) refl tt refl copied
