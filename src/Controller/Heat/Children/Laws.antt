-- ===== src/Controller/Heat/Children/Laws.antt =====
-- What the mutate function of CreateOrUpdate writes into a child.
use heat_operator.Base.{String, Option, ◌≡◌, arith}
use heat_operator.Api.Types.{HeatSpec, ObjectMeta}
use heat_operator.Heat.Names.{Component}
use heat_operator.Controller.Heat.Env.{Memcached}
use heat_operator.Controller.Heat.Children.{child_spec}

-- Applying a child twice changes nothing the second time: the spec that is written over the spec
-- it wrote is the same, whatever MemcachedInstance was there at first.
pub child_spec-idempotent :
    (meta : ObjectMeta) (spec : HeatSpec) (hostname : String) (mc : Memcached) (secret : String)
    (c : Component) (existing : Option String)
    → child_spec meta spec hostname mc secret c
        (child_spec meta spec hostname mc secret c existing).memcached_instance
      ≡ child_spec meta spec hostname mc secret c existing
unfolding child_spec
child_spec-idempotent meta spec hostname mc secret c existing = ground arith
