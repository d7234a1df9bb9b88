-- ===== src/Api.antt =====
-- The client library above the adapters: src/api and src/spi/utils/xml.
pub mod Xml
pub mod Request
pub mod Dom
pub mod Response
pub mod Client
mod Tests
mod ClientTests
mod RequestTests
