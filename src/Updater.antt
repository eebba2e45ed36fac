-- ===== src/Updater.antt =====
-- software/src/ac_sensor_updater.h and software/src/ac_sensor_updater.cpp: the state engine that
-- sets a meter up and then reads it, again and again.
pub mod Tables
pub mod State
pub mod Engine
pub mod Values
pub mod Handlers
pub mod Reading
pub mod Choice
pub mod Prompt
pub mod Fuel
pub mod Frame
pub mod Layout
pub mod Losing
pub mod GivingUp
pub mod Setup
pub mod Requests
pub mod Events
pub mod Returns
pub mod Ending
