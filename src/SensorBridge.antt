-- ===== src/SensorBridge.antt =====
-- software/src/ac_sensor_bridge.h and software/src/ac_sensor_bridge.cpp: the D-Bus service of a
-- sensor. The constants of the product ids and the conversions of `QVariant` are parameters.
pub mod Variants
pub mod Entries
pub mod Service
pub mod Names
pub mod Contents
pub mod Built
pub mod Charger
