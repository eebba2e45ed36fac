-- ===== src/Lib.antt =====
-- dbus-cgwacs reads Carlo Gavazzi energy meters over a serial line with Modbus RTU, and publishes
-- what they measure on D-Bus. This library models the C++ program under software/src, and the tool
-- that sets up its Zigbee modules, under tools/hub4_wireless.
--
-- The parts, and the files here that model them:
--   * defines.h: Defines (words, their halves, phases).
--   * crc16.h and crc16.cpp: Crc16, with both tables; Crc16/Reference has the bitwise CRC of the
--     Modbus standard, and Crc16/Detection what the CRC detects.
--   * modbus_rtu.h and modbus_rtu.cpp, the class `ModbusRtu`: Modbus/Types and Modbus/Engine. It
--     keeps a queue of commands, one reply awaited at a time, and a receiver that takes a byte at a
--     time (`handleByteRead`). Modbus/Queue, Traffic and Drain are about the queue, Frames, Replies,
--     Exchange and Noise about the receiver, and Runs about both together.
--   * ac_sensor_settings.h and .cpp: Settings, with Phases, Announce, Changes and Classes.
--   * ac_sensor.h, ac_sensor_phase.h and their .cpp files: Sensor, with Kinds and Reset.
--   * data_processor.h and .cpp: Processor, with Energy and Growth.
--   * ac_sensor_updater.h and .cpp, the class `AcSensorUpdater`: Updater. Updater/Tables holds the
--     fourteen tables of commands, Updater/State the object, Updater/Engine `startNextAction`,
--     `startNextAcquisition` and `onWaitFinished`, Updater/Values `processAcquisitionData`, and
--     Updater/Handlers and Updater/Reading the slots. Choice, Prompt, Fuel, Frame, Layout, Losing,
--     GivingUp, Setup, Requests, Events, Returns and Ending are about them.
--   * dbus_bridge.h and .cpp, the class `DBusBridge`: Dbus. Dbus/Items holds an item and its two
--     directions, Dbus/Bridge the object and its slots, Dbus/AddSetting and Dbus/Consume the settings;
--     Pending and Shadow are about what is published.
--   * ac_sensor_bridge.h and .cpp, the class `AcSensorBridge`: SensorBridge, with Variants (the
--     values), Entries (the items) and Service (the constructor and the name); Names, Contents,
--     Built and Charger are about them.
--   * ac_sensor_settings_bridge.h and .cpp: SettingsBridge, with Stored.
--   * ac_sensor_mediator.h and .cpp: Mediator for `registerDevice`, with DeviceIds, and
--     Mediator/Services for the other slots, with Published.
--   * main.cpp: Program, with Limits, for the arguments.
--   * tools/hub4_wireless/src: Wireless. Drf1600 is the Zigbee module of drf1600.cpp, Detector the
--     search of drf1600_detector.cpp, Setup hub4_wireless.cpp and ComTest com_test.cpp; Answers,
--     Waiting, Endings, Rounds and Results are about them.
-- Prelude has what the modules share, and Tests the runs at concrete inputs.
--
-- How the parts interact: the updater of a meter asks the Modbus object to read or write registers
-- (`Action`), and is called back by its signals (`Event`); replies become values of the sensor
-- through the data processor, which reads and writes the settings. A method is a function from the
-- object's state to its state; signals and requests are lists in the order in which they are made.
-- In the Modbus object, what the slots of a signal do is a parameter: a function that changes a
-- state of its own and returns the requests that the slots make.
--
-- What is outside: `double` is a parameter (Doubles) whose laws are those of IEEE 754 that a theorem
-- names, with no exact arithmetic; `QString::number` and `toInt` are a parameter (Numerals) with laws
-- for the values of an `int`. A text is a list of character codes; a chain of `QString::arg` is
-- modelled with the place markers that a text put in may hold (Prelude/PlaceMarkers). Where the source reads through a null pointer or outside a list, the
-- updater's model ends in `fault`. Assertions are those of a release build, which checks none. A
-- time that the stopwatch reads is taken to be below 2^31 ms.
--
-- Fuel: `run_action` counts the calls of `startNextAction` within one, with fuel 4, which is enough
-- for every run of events. `process_pending`, `ready_loop` and the other loops are structural.
--
-- The bridges take the items of the D-Bus library, the meta objects of Qt and the values that
-- properties have from a `World`; objects, items and signals are numbers there.
--
-- Not modelled: the order in which the mediator makes the settings bridge of a sensor and starts its
-- measurements; the D-Bus objects, the help and the log of main.cpp; the start and the log of the
-- Zigbee tool. They
-- bind the other parts to a library that is not in the repository, or are input and output only.
pub mod Prelude
pub mod Defines
pub mod Crc16
pub mod Modbus
pub mod Doubles
pub mod Numerals
pub mod Settings
pub mod Sensor
pub mod Processor
pub mod Updater
pub mod Mediator
pub mod Program
pub mod Dbus
pub mod SensorBridge
pub mod SettingsBridge
pub mod Wireless
pub mod Tests
