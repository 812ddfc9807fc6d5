-- ===== src/NodeScore.antt =====
-- The third-party IP payloads, web/src/lib/node-score.ts: score bands, and the normalization of a
-- payload of unknown shape into its sources. `null` is `none`. `to_number` is `Number(text)`.
pub mod Band
pub mod Info
pub mod Facts
pub mod Sources
pub mod Split
pub mod View
use mihomo_cp.Prelude.{Bool, List, Option}
use mihomo_cp.Js.Text.{Text}
use mihomo_cp.Js.Value.{Number, Object}

pub data ScoreBand : Type 0 where
  high medium low very_low : ScoreBand

pub data IpMatch : Type 0 where
  exact cidr mismatch unknown : IpMatch

pub data SourceName : Type 0 where
  claude lookup : SourceName

pub record IpIntel : Type 0 where
  pub ip : Option Text
  pub cidr : Option Text
  pub country : Option Text
  pub country_code : Option Text
  pub region : Option Text
  pub city : Option Text
  pub asn : Option Number
  pub asn_org : Option Text
  pub company_type : Option Text
  pub company_name : Option Text
  pub datacenter_name : Option Text
  pub is_residential : Option Bool
  pub is_datacenter : Option Bool
  pub is_vpn : Option Bool
  pub is_proxy : Option Bool
  pub is_tor : Option Bool
  pub is_mobile : Option Bool
  pub is_crawler : Option Bool
  pub is_abuser : Option Bool
  pub abuser_score : Option Text
  pub trust_score : Option Number
  pub sources : List Text
  pub ai_verdict_label : Option Text
  pub ai_verdict_reason : Option Text
  pub raw : Option Object

pub record SourceIntel : Type 0 where
  pub source : SourceName
  pub query_ip : Option Text
  pub response_ip : Option Text
  pub ip_match : IpMatch
  pub cidr : Option Text
  pub trust_score : Option Number
  pub intel : IpIntel
