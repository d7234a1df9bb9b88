-- ===== src/Wifi.antt =====
-- The Wi-Fi data of src/spi/wifi.
pub mod AccessPoint
pub mod Mac
pub mod Nl80211
mod Tests
mod Nl80211Tests
