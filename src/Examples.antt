-- ===== src/Examples.antt =====
-- Runs of the development at concrete inputs.
mod Setting
mod Webhook
mod Store
mod Controllers
mod Sources
mod Rendering
mod Composition
mod History
mod Objects
mod EndToEnd
mod Panics
mod Program
mod Dispatch
mod Admission
