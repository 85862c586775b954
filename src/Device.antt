-- ===== src/Device.antt =====
-- src/include/drivers/device.h: the status and the kind of a device.
pub data DeviceStatus : Type 0 where
  status_unknown status_not_present status_present status_faulty status_initialised : DeviceStatus

pub data DeviceType : Type 0 where
  device_access_pio device_access_mmio device_bridge : DeviceType
