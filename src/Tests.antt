-- ===== src/Tests.antt =====
-- Tests of the definitions on small inputs, and the theorems at inputs that meet their hypotheses.
mod Codec
mod Data
mod Witnesses
mod Deliveries
mod Documents
mod Checks
mod DayUseSite
mod DayUse
mod Mail
mod MockProvider
mod Delays
mod Stops
mod PullRequests
mod Statuses
mod Upgrades
mod HtmlPage
