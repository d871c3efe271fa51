-- ===== src/Api/Route.antt =====
-- SetDefaultRouteAnnotations of api/v1beta1/heat_webhook.go, which mutates the map it is given.
pub mod Laws
pub mod Decimal
use Prim.Native.String.{String}
use heat_operator.Base.{
  ℕ, zero, suc, ◌+◌, ◌/◌, ◌%◌, Bool, not, ◌&&◌, Option, none, some, GoMap, lookup, insert, delete,
  ◌==◌, ltb, if◌then◌else◌, is_some, ◌<>◌,
}

abbrev pub ha_proxy_anno : String
ha_proxy_anno = "haproxy.router.openshift.io/timeout"

abbrev pub heat_anno : String
heat_anno = "api.heat.openstack.org/timeout"

digit : ℕ → String
digit zero = "0"
digit (suc zero) = "1"
digit (suc (suc zero)) = "2"
digit (suc (suc (suc zero))) = "3"
digit (suc (suc (suc (suc zero)))) = "4"
digit (suc (suc (suc (suc (suc zero))))) = "5"
digit (suc (suc (suc (suc (suc (suc zero)))))) = "6"
digit (suc (suc (suc (suc (suc (suc (suc zero))))))) = "7"
digit (suc (suc (suc (suc (suc (suc (suc (suc zero)))))))) = "8"
digit _ = "9"

-- `%d` with fuel: a number has fewer digits than its successor says.
pub decimal_from : ℕ → ℕ → String
decimal_from zero n = ""
decimal_from (suc fuel) n =
    let rest = decimal_from fuel (n / 10) in if ltb n 10 then digit n else rest <> digit (n % 10)

unfoldable pub decimal : ℕ → String
unfolding decimal_from digit
decimal n = decimal_from (n + 1) n

-- fmt.Sprintf("%ds", spec.APITimeout)
abbrev pub timeout_text : ℕ → String
timeout_text api_timeout = decimal api_timeout <> "s"

-- `val, ok := m[k]`: the zero value beside a false `ok`
abbrev pub value : Option String → String
value none = ""
value (some s) = s

unfoldable pub set_default_route_annotations : ℕ → GoMap String → GoMap String
set_default_route_annotations api_timeout annotations =
    let val_heat = lookup heat_anno annotations in
    let val_ha_proxy = lookup ha_proxy_anno annotations in
    if not (is_some val_heat) && is_some val_ha_proxy
    then annotations
    else if is_some val_heat && is_some val_ha_proxy && not (value val_heat == value val_ha_proxy)
    then delete heat_anno annotations
    else insert ha_proxy_anno (timeout_text api_timeout)
        (insert heat_anno (timeout_text api_timeout) annotations)
