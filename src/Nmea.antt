-- ===== src/Nmea.antt =====
-- src/spi/utils/nmea: the NMEA 0183 sentences of a GPS receiver.
pub mod Checksum
pub mod Scan
pub mod Dataset
pub mod Token
pub mod Field
pub mod Format
pub mod Sentence
pub mod Gsv
pub mod Info
pub mod Units
pub mod Stream
mod Tests
