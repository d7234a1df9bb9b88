-- ===== src/Lib.antt =====
-- Precision Location Lite Client: a C++ library that scans Wi-Fi access points, cell towers and GPS
-- fixes, sends them to a server and returns the location that the server answers.
--
-- The parts and how they interact. `SHLC_location` (src/api/skyhookliteclient.cpp) opens the GPS, cell
-- and Wi-Fi adapters, names the device by its address, scans, and posts one request. The request is
-- text made with the functions of src/spi/utils/xml. A serial GPS adapter hands the bytes that arrive
-- to a `GPSProtocol` (src/spi/gps/protocol), which buffers them and lets a derived class take what it
-- can parse: `NMEAProtocol` through the NMEA library (src/spi/utils/nmea), `SirfProtocol` by itself.
-- Either leaves a `GPSData`, whose fixes the client collects. The Wi-Fi adapter asks nl80211 for access
-- points, the cell adapter asks ofono for a tower; both time what they find with a `Timer`. Protocol.cpp
-- writes a scan as the XML of a request and reads the location of the answer from its DOM.
--
-- Which file models what:
--   Nmea/Scan, Checksum, Sentence: src/spi/utils/nmea/src/Sentence.cpp (find, findChar, calcTokens,
--     calcChecksum, extractChecksum, toString, parse, parsePayload)
--   Nmea/Dataset, Field, Info, Units: Variant.h, Dataset.h, Types.h, Fields.h, Info.h and Units.h of
--     src/spi/utils/nmea/include/nmea; a `std::map` is the function that looks a field up
--   Nmea/Token, Format, Gsv: Token.h, the tables GGA.h, GSA.h, GSA1.h, RMC.h, RMC1.h, GLL.h and GSV.h,
--     and GSV.cpp of src/spi/utils/nmea/src
--   Nmea/Stream: src/spi/utils/nmea/src/NMEA.cpp (generate, parse)
--   Timer, Time: the classes of include/spi/Time.h
--   Gps: include/spi/GPSData.h; FixOrder: Fix::compare of src/spi/gps/GPSData.cpp
--   Gps/Sirf: src/spi/gps/protocol/sirf/SirfProtocol.cpp; Input is the class SirfInputStream, Message
--     are parseFix and parseSatellites, Frame is tryParse
--   Gps/Protocol: src/spi/gps/protocol/GPSProtocol.h and GPSProtocol.cpp, over any `tryParse`
--   Gps/NmeaProtocol: src/spi/gps/protocol/nmea
--   Gps/Serial: src/spi/gps/serial/SerialGPSAdapter.h and the reading thread of
--     src/spi/gps/serial/unix/UnixSerialPort.cpp
--   Cell, Cell/Scanned: include/spi/CellTower.h and include/spi/ScannedCellTower.h
--   Cell/Ofono: src/spi/cell/ofono/OfonoCellAdapter.cpp
--   Wifi/AccessPoint: include/spi/ScannedAccessPoint.h
--   Wifi/Nl80211: src/spi/wifi/nl80211/Nl80211WifiAdapter.cpp; the messages and requests in the module
--     itself, power, open and close in Power, newInstance in Interface
--   Api/Request, Api/Response: src/api/Protocol.cpp (locationRQ, and parseLocationRS with parseErrorRS),
--     src/api/Wrappers.h and src/api/Wrappers.cpp
--   Api/Dom: src/spi/xml/libxml/LibxmlDOM.cpp
--   Api/Xml: src/spi/utils/xml/XmlUtils.cpp
--   Xhr: src/spi/xhr/curl/CurlXmlHttpRequest.cpp
--   Api/Client: src/api/skyhookliteclient.cpp
--   Wifi/Mac: src/spi/wifi/MAC.cpp
--   Base: lists and integers over the native numbers, the laws of the bit operations, and what the
--     code uses of the C library (include/spi/StdLibC.h, src/spi/stdlibc/unix/UnixStdLibC.cpp)
-- The children of these modules hold the proofs, and the modules whose names end in Tests hold runs on
-- concrete values.
--
-- Conventions. A function that can fail an `assert` or read past a buffer returns `Option`, and
-- `none` is that failure. A method that changes its object takes and returns the object's members. Bytes are
-- numbers below 256; a C string is the list of its bytes without the NUL, a pointer into it the list
-- from there on. Numbers of w bits wrap around modulo 2 ^ w where the code can leave their range. The
-- machine is little-endian, `int` has 32 bits and `long` 64.
--
-- Loops that are not structural run on fuel. The loop of `NMEA::parse` and the one of `calcTokens` get
-- one round for each byte, as each round takes one byte at least; so do the loop of
-- `SirfProtocol::tryParse`, which takes a byte by reading two and going back by one, and the loops of
-- `xmlUtf8Test` and `parseBssIe`. The digits of a number get one round more than the number. The
-- theorems below on these loops include that the fuel is enough.
--
-- Parameters. `float` and `double` with their operations, `atof` and the printing of `double`
-- (Floats, Reals, Arith, Platform, Printing, Reader), `timegm` and the clocks, the numbers that
-- uninitialised members hold, one for each sentence that is read, the conversion of character sets by
-- iconv, and what the libraries answer: D-Bus (Answer, Bus), libnl (Parsed, Request, Link), select and
-- read (Outcome), and for `SHLC_location` its adapters, the server, the XML parser and MD4 (World). The
-- World's texts of requests and readings of answers are functions of their own in Api/Request and
-- Api/Response.
--
-- Not modelled: libcurl's transfer, libxml's parser and GLib's wrapper of the cell adapter,
-- which are calls of these libraries; the settings of a terminal; threads and events, whose effect on a
-- call of the client is the event that a scan ends with; loggers; and src/contrib/md4, a copy of another
-- project.
pub mod Api
pub mod Base
pub mod Gps
pub mod Nmea
pub mod Cell
pub mod Time
pub mod Timer
pub mod Wifi
pub mod Xhr
