-- ===== src/Tests.antt =====
-- Runs of the code on concrete inputs, and the theorems at concrete data.
mod Device
mod Machine
mod Cmdline
mod Rest
mod Start
mod Vf
mod Create
mod Marshal
mod Process
mod Network
mod Run
