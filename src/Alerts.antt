-- ===== src/Alerts.antt =====
-- The alerting types of packages/shared-types/src/alert.ts.
pub mod Escalation
pub mod Ports
pub mod Service
pub mod Rules
pub mod Analytics
mod Tests
use pawaacdrone_fleet_operat.Common.{ℕ, Bool, true, false, List, Option, Str}

pub data AlertStatus : Type 0 where
  opened acknowledged escalated closed : AlertStatus

pub data AlertSeverity : Type 0 where
  info warning critical : AlertSeverity

pub data ChannelType : Type 0 where
  in_app email whatsapp : ChannelType

pub data EventKind : Type 0 where
  anomaly scene maintenance : EventKind

pub record Channel : Type 0 where
  pub kind : ChannelType
  pub target : Option Str

-- `===` on statuses and on channel types
unfoldable pub status_eq : AlertStatus → AlertStatus → Bool
status_eq opened opened = true
status_eq acknowledged acknowledged = true
status_eq escalated escalated = true
status_eq closed closed = true
status_eq _ _ = false

unfoldable pub channel_eq : ChannelType → ChannelType → Bool
channel_eq in_app in_app = true
channel_eq email email = true
channel_eq whatsapp whatsapp = true
channel_eq _ _ = false

-- A date stands for its time in milliseconds; its printed form is not modelled.
pub record Alert : Type 0 where
  pub id : Str
  pub rule_id : Str
  pub severity : AlertSeverity
  pub status : AlertStatus
  pub escalation_level : ℕ
  pub created_at : ℕ
  pub acknowledged_at : Option ℕ
  pub acknowledged_by : Option Str
