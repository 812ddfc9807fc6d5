-- ===== src/NodeInventory.antt =====
-- The unified node table, web/src/lib/node-inventory.ts: its rows and the data that they are built
-- from (`Proxy` of web/src/api/proxies.ts, the runtime types of web/src/api/runtime.ts). A field
-- that may be null is an `Option`. Fields that the table never reads are left out.
pub mod Protocol
pub mod Rows
pub mod Keys
pub mod Push
pub mod Statics
pub mod Build
pub mod Filter
pub mod Options
use mihomo_cp.Prelude.{Bool, true, false, List, Option}
use mihomo_cp.Js.Text.{Text}
use mihomo_cp.Js.Value.{Number, Object}

pub data NodeKind : Type 0 where
  static provider : NodeKind

pub data ProviderStatus : Type 0 where
  ok unknown : ProviderStatus

pub record Proxy : Type 0 where
  pub id : Text
  pub name : Text
  pub type : Text
  pub country : Option Text
  pub config : Option Object

pub record RuntimeProviderNode : Type 0 where
  pub id : Text
  pub name : Text
  pub type : Text
  pub alive : Option Bool
  pub udp : Option Bool
  pub delay : Option Number

pub record RuntimeProxyProvider : Type 0 where
  pub name : Text
  pub status : ProviderStatus
  pub updated_at : Option Text
  pub node_count : Option Number
  pub nodes : Option (List RuntimeProviderNode)

pub record NodeRow : Type 0 where
  pub key : Text
  pub kind : NodeKind
  pub id : Text
  pub name : Text
  pub protocol : Text
  pub provider_name : Text
  pub provider_status : Option ProviderStatus
  pub country : Text
  pub server : Text
  pub alive : Option Bool
  pub udp : Option Bool
  pub delay : Option Number
  pub read_only : Bool
  pub proxy : Option Proxy
  pub provider_node : Option RuntimeProviderNode

abbrev pub is_static : NodeKind → Bool
is_static static = true
is_static provider = false
