-- ===== src/Startup.antt =====
-- src/drivers/device.c: how a device is allocated and brought up by its driver.
pub mod Critical
use Prim.Native.String.{String}
use tiny_bios.Prelude.{Bool, true, false, not, [], if◌then◌else◌}
use tiny_bios.Device.{
  DeviceStatus, status_unknown, status_not_present, status_present, status_faulty,
  status_initialised, DeviceType, device_access_pio,
}
use tiny_bios.Port.{Cmd, pure, ◌>>=◌, ◌>>◌, blogf, panic}

-- `device`, with the driver's own data.
pub record Device (D : Type 0) : Type 0 where
  pub device_name : String
  pub status : DeviceStatus
  pub type : DeviceType
  pub device_data : D

-- The cleared structure, with its cleared data.
abbrev pub zeroed : {D : Type 0} → D → Device D
zeroed zeros = record {
  device_name = "";
  status = status_unknown;
  type = device_access_pio;
  device_data = zeros;
}

-- The answers of the two calls of `calloc`; `zeros` is the cleared data.
unfoldable pub new_device :
    {D : Type 0} → (granted data_granted : Bool) → (zeros : D) → Cmd (Device D)
new_device granted data_granted zeros =
    if not granted
    then panic "Out of memory while creating new device\n"
    else (if not data_granted
        then panic "Out of memory while Allocating space for device data\n"
        else pure (zeroed zeros))

unfoldable pub status_to_str : DeviceStatus → String
status_to_str status_present = "device is present"
status_to_str status_not_present = "device is not present"
status_to_str status_unknown = "unable to determine device state"
status_to_str status_faulty = "device is misbehaving"
status_to_str status_initialised = "device initialisation completed"

abbrev pub is_initialised : DeviceStatus → Bool
is_initialised status_initialised = true
is_initialised _ = false

-- What follows the driver's return. The reason is printed by itself.
unfoldable pub finish_device :
    {D : Type 0}
    → Device D
    → (name : String) → (critical : Bool) → DeviceStatus
    → D
    → Cmd (Device D)
finish_device dev name critical status data' =
    let dev' = record dev { status = status; device_name = name; device_data = data' } in
    if not (is_initialised status)
    then (do
      blogf "Failed, reason: %s\n" []
      blogf (status_to_str status) []
      if critical then panic "Unable to initialize a critical component" else pure dev')
    else (do blogf "ok\n" []; pure dev')

-- The driver is a command on the device's data. The name is printed by itself.
unfoldable pub initialize_device :
    {D : Type 0}
    → (D → Cmd (DeviceStatus × D))
    → Device D
    → (name : String) → (critical : Bool) → Cmd (Device D)
initialize_device init dev name critical = do
  blogf "Initializing %s... " []
  blogf name []
  (status, data') ← init dev.device_data
  finish_device dev name critical status data'
