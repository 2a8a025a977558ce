-- ===== src/Tests.antt =====
-- Runs at concrete inputs.
mod Meta
mod Adm
mod Crc
mod Hosts
mod Log
mod Tool
mod Up
mod Volumes
mod Adjust
mod Dump
mod Mesh
