-- ===== src/Node.antt =====
-- packages/node/src: the native addon, between JavaScript values and packages/core.
pub mod Js
pub mod FfiUtil
pub mod Body
pub mod Handler
pub mod Dispatch
pub mod Create
pub mod Entry
pub mod Promise
pub mod Startup
mod Plain
mod Examples
