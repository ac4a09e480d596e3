-- ===== src/Tests.antt =====
-- Runs of the shared functions, and the theorems of several parts at concrete inputs.
mod Samples
mod TextRuns
mod Access
mod Wire
mod Setup
mod Owners
mod Logins
mod Lists
mod Gateway
mod Served
mod Paged
mod Answers
mod Callback
mod Openapi
mod TokenFiles
mod Alerting
mod Runtimes
