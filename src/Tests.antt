-- ===== src/Tests.antt =====
-- Runs of the definitions on small inputs, and the theorems at inputs where their conditions hold.
mod Ept
mod Vpid
mod Decoder
mod Apic
mod Injection
mod Devices
mod Events
mod Protocol
mod Paging
mod Pebs
mod Forked
mod Mmio
