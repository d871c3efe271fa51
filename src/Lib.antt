-- ===== src/Lib.antt =====
-- A model of the heat operator, which runs OpenStack Heat on Kubernetes.
--
-- The program is a Kubernetes operator. A webhook defaults and validates Heat resources
-- (api/v1beta1/heat_webhook.go, internal/webhook/v1beta1/heat_webhook.go); a reconciler turns a
-- Heat resource into a database, message bus accounts, configuration secrets, jobs and three child
-- resources (internal/controller/heat_controller.go, internal/heat), which reconcilers of their own
-- turn into deployments (heatengine_controller.go, heatapi_controller.go, heatcfnapi_controller.go,
-- internal/heatengine, internal/heatapi, internal/heatcfnapi). cmd/main.go sets all of them up with
-- a manager and starts it. Modelled are the webhook, the four reconcilers with what makes them run
-- again, and the start.
--
-- Api        api/v1beta1. Api.Types has the resources, Api.Defaults the Default methods,
--            Api.Validation and Api.Admission the Validate methods and the entry points of the
--            webhook, Api.Route SetDefaultRouteAnnotations, Api.Children the specs of the children.
-- Heat       internal/heat. Heat.Names has const.go and funcs.go, Heat.Volumes volumes.go,
--            Heat.Jobs dbsync.go and cronjob.go, Heat.ChildSpec the specs of the children,
--            Heat.Deployments the Deployments of the three services with formatTLS and FormatProbes.
-- Controller internal/controller. Controller.Conditions is the interface of lib-common's condition
--            lists, Controller.Exec a Go function body that mutates a state and returns early, and
--            Controller.Exec.Rules a proof rule for each of its forms.
-- Controller.Heat is heat_controller.go. reconcileNormal is cut into stretches that are functions
--            of their own: Inputs, Transport, Database, Config and Secrets, Init, Children,
--            Rotation; Normal composes them in the order of the code. Delete is reconcileDelete,
--            Reconcile the entry point with its deferred function. Safety, Progress and the Laws
--            modules are proofs.
-- Controller.Service is what the controllers of the three services share, by the component:
--            Inputs, Config, Endpoints (reconcileInit), Topology (ensureTopology), Rollout, Normal,
--            Delete and Reconcile. Its Safety, Watched and Clean are proofs.
-- Controller.Engine.Reconcile, Controller.HeatApi and Controller.CfnApi put them in the order of
--            heatengine_controller.go, heatapi_controller.go and heatcfnapi_controller.go, and
--            Controller.Instances compares them with Controller.Service, part by part, and
--            Controller.Instances.Whole the whole of Reconcile. Controller.Engine.Config is the
--            custom data of a service's configuration Secret.
-- Controller.Handshake is how the Heat reconciler and a service agree that a hash is applied.
-- Controller.Watches has the index functions of the four controllers and the functions that map a
--            changed object to the resources that reconcile; Controller.Watches.Reconcilers has
--            these functions for each controller, with the type of resource that its file lists.
-- Controller.Children has the three CreateOrUpdate functions of the Heat reconciler, each on the
--            type of its child (Api.Children), where Controller.Heat.Children has them as one.
-- Controller.Setup is SetupWithManager of the four controllers, on a manager that keeps what was
--            registered with it; Controller.Setup.Requests runs the watches that an update passes.
-- Manager    cmd/main.go. Manager.Slices has Go's append on slices that share an array, Manager.Env
--            what main reads and calls and the state of the process, Manager.Main main itself, cut
--            into stretches in the order of the code, where os.Exit(1) is an early return.
--            Manager.Tls, Manager.Ready, Manager.Progress, Manager.Watching and Manager.Admitting
--            are proofs.
-- Examples   a concrete resource and a cluster that grants every request, for the runs.
--
-- The cluster and the libraries (lib-common, the MariaDB, Keystone, RabbitMQ and Memcached
-- operators, controller-runtime) are the records Controller.Heat.Env.Env and
-- Controller.Service.Env.Env: a reply is a function of
-- the calls made so far, so that every sequence of replies is covered. Each call is logged with
-- what a theorem needs of its reply. `Validators` and `VolumeOps` are such records for the webhook
-- and the volumes. Laws of a library are hypotheses where a theorem needs them: one condition for
-- each type, read back as written (CondLaws), and a ValidateTopologyRef that reports foreign
-- namespaces. That the mounts which lib-common makes name the volumes that it makes with them are
-- such laws; the mounts of the spec's extraMounts are the user's, and nothing is assumed of them.
--
-- A string is a sequence of bytes, a Go map an association list, a nil pointer an `Option`. The one
-- place where the code's result hangs on the order of a map, the concatenation of the custom
-- service config secrets, takes the order of the list. The only fuel is that of `decimal`, which
-- prints a number: one more than the number itself is enough, since each digit divides by ten.
-- Sizes and ages are natural numbers; negative ones, which the CRD's schema excludes, are not
-- modelled. Panics, logging, metrics, labels of the generated secret, owner references and
-- security contexts are left out.
--
-- Go does not fix the order in which reconcileInit ranges over its two endpoints: the environment
-- chooses it. A nil MemcachedInstance, which would panic, ends the reconcile.
--
-- The capacity that Go's runtime gives a slice that has to grow is a parameter of Manager.Env.Env:
-- the two servers append to one slice, and whether they share its array depends on it. A call that
-- main makes once is a parameter by its arguments.
--
-- Not modelled: the parsing of the flags, the logger and the registration of the schemes in
-- cmd/main.go, the generated deep copies, and the templates.
mod Base
pub mod Api
pub mod Heat
pub mod Controller
pub mod Manager
mod Examples
