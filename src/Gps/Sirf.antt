-- ===== src/Gps/Sirf.antt =====
-- The SiRF binary protocol of src/spi/gps/protocol/sirf/SirfProtocol.cpp.
pub mod Input
pub mod Message
pub mod Frame
