-- ===== src/Dbus.antt =====
-- software/src/dbus_bridge.h and software/src/dbus_bridge.cpp: the bridge between properties of
-- objects and items of a D-Bus service.
pub mod Items
pub mod Bridge
pub mod Pending
pub mod Shadow
pub mod AddSetting
pub mod Consume
