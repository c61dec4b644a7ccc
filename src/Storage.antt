-- ===== src/Storage.antt =====
-- What the node stores: the calibration file of dev/storage-cal.c, the boot script of
-- dev/storage-init.c, and the SFP database of dev/storage-sfp.c.
pub mod Calibration
pub mod Script
pub mod Sfp
