-- ===== src/Controller/Setup.antt =====
-- SetupWithManager of the four controllers: the fields that are indexed, and the objects whose
-- changes make a controller reconcile. The manager of controller-runtime is kept as what was
-- registered with it; whether it takes a registration is a parameter.
pub mod Controllers
pub mod Laws
pub mod Requests
use heat_operator.Base.{String, Option, none, some, List, [], ◌∷◌}
use heat_operator.Api.Types.{HeatSpec}
use heat_operator.Heat.ChildSpec.{ChildSpec}
use heat_operator.Controller.Conditions.{Err}
use heat_operator.Controller.Exec.{Exec, Exit, next, stop}
use heat_operator.Controller.Watches.{Field}

-- the types of the objects that the controllers name
pub data Kind : Type 0 where
  heat heat_api heat_cfn_api heat_engine : Kind
  mariadb_database mariadb_account job cron_job transport_url service_account role : Kind
  role_binding deployment keystone_service keystone_endpoint k8s_service : Kind
  memcached k8s_secret keystone_api k8s_topology : Kind

-- an index function, by the type that it asserts its object to have
pub data Extract : Type 0 where
  of_heat : (HeatSpec → List String) → Extract
  of_service : (ChildSpec → List String) → Extract

pub record Index : Type 0 where
  pub kind : Kind
  pub field : Field
  pub extract : Extract

-- handler.EnqueueRequestsFromMapFunc, by its function
pub data Handler : Type 0 where
  by_memcached_fn by_secret_fn by_find_objects_for_src by_find_object_for_src : Handler

pub data Predicate : Type 0 where
  any_change resource_version_changed generation_changed keystone_status_changed : Predicate

pub record Watch : Type 0 where
  pub kind : Kind
  pub handler : Handler
  pub predicate : Predicate

-- what is built by ctrl.NewControllerManagedBy(mgr).For(...).Owns(...).Watches(...)
pub record Builder : Type 0 where
  pub reconciled : Kind
  pub owned : List Kind
  pub watched : List Watch

-- the controllers and the indexes of a manager, the newest first
pub record Mgr : Type 0 where
  pub indexes : List Index
  pub controllers : List Builder

abbrev pub empty_mgr : Mgr
empty_mgr = record { indexes = []; controllers = [] }

pub record SetupOps : Type 0 where
  pub index_field : Index → Mgr → Option Err  -- mgr.GetFieldIndexer().IndexField
  pub complete : Builder → Mgr → Option Err  -- (*Builder) Complete

-- `if err := ...; err != nil { return err }`
abbrev pub unless_err : Option Err → Mgr → Mgr → Exit (Option Err) (Unit {0}) × Mgr
unless_err none kept mgr = (next tt, kept)
unless_err (some e) kept mgr = (stop (some e), mgr)

module _ (ops : SetupOps) where
  unfoldable pub index_field : Index → Exec (Option Err) Mgr (Unit {0})
  index_field index mgr =
      unless_err (ops.index_field index mgr) (record mgr { indexes = index ∷ mgr.indexes }) mgr

  unfoldable pub complete : Builder → Exec (Option Err) Mgr (Unit {0})
  complete builder mgr =
      unless_err (ops.complete builder mgr) (record mgr { controllers = builder ∷ mgr.controllers })
        mgr
