-- ===== src/Main.antt =====
-- `main` of src/main.rs. Its arguments are parsed by clap; the runtime and its admin server, which
-- serves the registry, are kubert's; a definition is printed by serde_yaml. All these are the `Host`.
pub mod Client
pub mod Served
use Prim.Native.String.{◌++◌}
use sinker.Prelude.{◌≡◌, ℕ, String, Option, none, some, List, [], ◌∷◌}
use sinker.Result.{Result, ok, err, panic, ◌>>=◌}
use sinker.Kube.Libraries.{Libraries}
use sinker.Resources.{ResourceSync}
use sinker.Resources.Container.{CustomResourceDefinition, crd_with_manual_schema}
use sinker.Server.{Request, Server}
use sinker.ResourceExtensions.{Connections}
use sinker.Metrics.Registry.{Registry, Shared, no_collectors, register, write}
use sinker.Controller.Run.{Ended, exited, returned, panicked, run_with_metrics}
use sinker.Main.Client.{LegacyClient, KubeClient, ClientError, controller_client}

pub data Commands : Type 0 where
  manifests : Commands

-- The arguments for the runtime are taken together.
pub record Args (Options : Type 0) : Type 0 where
  pub options : Options
  pub command : Option Commands

-- `kubert::Runtime`, with what its `run` ends with.
pub record Runtime (L : Type 0) : Type 0 where
  pub client : L
  pub run : Result String (Unit {0})

-- What the crates do for `main`: `RuntimeMetrics::register`, the builder's chain up to `build`, with the
-- registry that the admin server takes, `crd()` of both resources, and YAML.
pub record Host (Options L Schema : Type 0) : Type 0 where
  pub register_runtime : Registry → Registry
  pub build : Options → Registry → Result String (Runtime L)
  pub sync_crd : CustomResourceDefinition Schema
  pub container_crd : CustomResourceDefinition Schema
  pub schema_from_str : String → Result String Schema
  pub to_yaml : CustomResourceDefinition Schema → Result String String

-- How the process ends: what it has printed, or the error that `main` returns, its own exit code, or a
-- panic.
pub data Finished : Type 0 where
  printed : String → Finished
  failed : String → Finished
  exited_with : ℕ → Finished
  unwound : Finished

-- The end of the process, with the registry that was served and the collectors.
pub record Process : Type 0 where
  pub finished : Finished
  pub served : Registry
  pub shared : Shared

abbrev pub print : Result String String → Finished
print (ok text) = printed text
print (err e) = failed e
print panic = unwound

module _ {Options L Schema : Type 0} (host : Host Options L Schema) where
  unfoldable pub print_manifests : Result String String
  unfolding crd_with_manual_schema
  print_manifests = do
    sync ← host.to_yaml host.sync_crd
    crd ← crd_with_manual_schema host.schema_from_str host.container_crd
    container ← host.to_yaml crd
    ok (sync ++ ("---\n" ++ (container ++ "\n")))

-- `tokio::join!(controller, rt.run()).1?`: both are polled until both are done, and the result is the
-- runtime's. An exit ends the process, and a panic of either unwinds.
unfoldable pub join : Ended → Result String (Unit {0}) → Finished
join (exited code) _ = exited_with code
join panicked _ = unwound
join (returned _) (ok _) = printed ""
join (returned _) (err e) = failed e
join (returned _) panic = unwound

module _ {Options W Parts Body Bytes Response X Schema K G : Type 0}
    (host : Host Options (LegacyClient W Parts Bytes Response X) Schema)
    (collect_bytes : Body → Result (ClientError X) Bytes) (lib : Libraries)
    (net : Connections (KubeClient W Parts Body Response X) K G)
    (server : Server (KubeClient W Parts Body Response X)) where
  abbrev pub serve :
      List ResourceSync
      → List (Request (KubeClient W Parts Body Response X))
      → ℕ
      → Registry
      → Shared
      → Result String (Runtime (LegacyClient W Parts Bytes Response X))
      → Process
  serve syncs history handle served shared (ok rt) =
      let (ended, s) =
        run_with_metrics lib net server syncs (controller_client collect_bytes rt.client) history
          (shared.cell handle) in
      record {
        finished = join ended rt.run;
        served = served;
        shared = write handle s.metrics shared;
      }
  serve syncs history handle served shared (err e) = record {
    finished = failed e;
    served = served;
    shared = shared;
  }
  serve syncs history handle served shared panic = record {
    finished = unwound;
    served = served;
    shared = shared;
  }

  unfoldable pub main :
      Args Options
      → List ResourceSync
      → List (Request (KubeClient W Parts Body Response X))
      → Process
  unfolding print_manifests run_with_metrics register write join
  main args syncs history = elim args.command [
    | some manifests ↦ record {
      finished = print (print_manifests host);
      served = [];
      shared = no_collectors;
    }
    | none ↦
        let (handle, (registry, shared)) = register (host.register_runtime []) no_collectors in
        serve syncs history handle registry shared (host.build args.options registry)
  ]
