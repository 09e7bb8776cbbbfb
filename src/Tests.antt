-- ===== src/Tests.antt =====
-- Runs of the definitions at concrete values.
mod Http
mod Ws
mod Codec
mod Storage
mod Upgrade
mod Scenario
mod Counters
mod Daemon
mod Start
mod Run
mod Cli
mod Command
mod Dialog
mod Layout
mod Service
mod Account
mod Windows
