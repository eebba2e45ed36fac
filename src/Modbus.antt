-- ===== src/Modbus.antt =====
-- software/src/modbus_rtu.h and software/src/modbus_rtu.cpp: the Modbus RTU master.
pub mod Types
pub mod Engine
pub mod Queue
pub mod Traffic
pub mod Runs
pub mod Drain
pub mod Frames
pub mod Replies
pub mod Exchange
pub mod Noise
