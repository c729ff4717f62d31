-- ===== src/Tests.antt =====
-- Tests of the definitions on concrete inputs, and the theorems at inputs that meet their hypotheses.
mod Samples
mod Registry
mod Rules
mod App
mod Config
mod Concurrent
mod Ws
mod Flow
mod Net
mod Proxy
mod Flags
mod Admin
mod CaTrust
mod Program
mod Main
mod SslKit
mod Script
