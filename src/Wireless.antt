-- ===== src/Wireless.antt =====
-- tools/hub4_wireless: the tool that finds and configures the DRF1600 Zigbee modules of a meter and
-- of its reader.
pub mod Drf1600
pub mod Detector
pub mod Waiting
pub mod Endings
pub mod Answers
pub mod Rounds
pub mod ComTest
pub mod Setup
pub mod Results
