-- ===== src/Witnesses.antt =====
-- Concrete inputs: tests of the definitions, and each theorem at an input where its hypotheses hold.
mod Inputs
mod NodeInventory
mod NodeScore
mod I18n
mod SubscriptionForm
mod SubscriptionFormat
mod ApiError
mod Moving
mod Session
mod ProxyGroups
mod Rules
mod Publish
mod Traffic
mod ProxyList
mod NodeScoresPage
mod ProxiesPage
mod SubscriptionsPage
mod SystemConfig
mod Api
mod ProxyForm
mod RuleProviders
mod Settings
mod NodeScoreDetail
