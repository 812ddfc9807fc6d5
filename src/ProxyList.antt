-- ===== src/ProxyList.antt =====
-- The delay tests of `ProxyList`, web/src/components/proxies/proxy-list.tsx: `testOneDelay` up to its
-- request and from its answer on, and the effect that tests all rows at once.
pub mod Delays
use mihomo_cp.Prelude.{
  Bool, true, false, List, [], ◌∷◌, Option, none, some, map, find, if◌then◌else◌,
}
use mihomo_cp.Js.Text.{Text, text_eq}
use mihomo_cp.Js.Value.{Number, Value, num}
use mihomo_cp.Js.Compare.{above}
use mihomo_cp.NodeInventory.{NodeRow, static, provider, RuntimeProxyProvider}

pub data DelayState : Type 0 where
  delay : Number → DelayState
  testing : DelayState
  timeout : DelayState
  error : DelayState

-- The record `delays`, by key.
abbrev pub Delays : Type 0
Delays = Text → Option DelayState

-- `{ ...prev, [key]: state }`.
unfoldable pub put : Text → DelayState → Delays → Delays
unfolding text_eq
put key state delays k = if text_eq key k then some state else delays k

-- The request of a row: the health check of a provider's node, or the delay of a static proxy.
pub data Request : Type 0 where
  provider_node_healthcheck : Text → Text → Request
  proxy_delay : Text → Request

unfoldable pub request_of : NodeRow → Request
request_of row = elim row.kind [
  | provider ↦ provider_node_healthcheck row.provider_name row.name
  | static ↦ proxy_delay row.name
]

unfoldable pub provider_for : List RuntimeProxyProvider → NodeRow → Option RuntimeProxyProvider
unfolding text_eq
provider_for providers row = elim row.kind [
  | provider ↦ find (λ p. text_eq p.name row.provider_name) providers
  | static ↦ none
]

-- How a request ends: `res?.data?.delay`, or an exception.
pub data Answer : Type 0 where
  answered : Value → Answer
  rejected : Answer

unfoldable pub state_of : Answer → DelayState
state_of (answered (num d)) = if above d 0 then delay d else timeout
state_of (answered _) = timeout
state_of rejected = error

unfoldable pub start : NodeRow → Delays → Delays
unfolding put
start row delays = put row.key testing delays

unfoldable pub finish : NodeRow → Answer → Delays → Delays
unfolding put state_of
finish row answer delays = put row.key (state_of answer) delays

-- The effect on `testAllTrigger`: the tests of all rows are started, one after another.
unfoldable pub start_all : List NodeRow → Delays → Delays
unfolding start
start_all [] delays = delays
start_all (row ∷ rows) delays = start_all rows (start row delays)

-- The answers, in the order in which they come.
unfoldable pub finish_all : List (NodeRow × Answer) → Delays → Delays
unfolding finish
finish_all [] delays = delays
finish_all ((row, answer) ∷ rest) delays = finish_all rest (finish row answer delays)

unfoldable pub test_all : List NodeRow → List (NodeRow × Answer) → Delays → Delays
unfolding start_all finish_all
test_all rows answers delays = finish_all answers (start_all rows delays)
