-- ===== src/Tests/Attaching.antt =====
-- A disk is plugged into the machine of the driver, then userland sends a SET_INTERFACE.
use usbq_core.Driver.Dispatch.{ubq_enable_device, probe_unbound, probe_interfaces}
use usbq_core.Driver.Module.{open_driver, ubq_driver_init}
use usbq_core.Driver.Offering.{IsSendable}
use usbq_core.Driver.Running.{
  driver_event-IsSteady, from_userland, handle_event, plug, begins, then_after,
}
use usbq_core.Driver.Serving.{IsAccepted}
use usbq_core.Driver.Sound.{IsSteady}
use usbq_core.Driver.State.{DriverState}
use usbq_core.Driver.Switching.{Configures, IsKernelAltsetting, IsKernelInterface}
use usbq_core.Endpoint.{Kernel, UsbInterface}
use usbq_core.Msg.{Msg, get_epid, msg_diff_size, msg_get_data_size}
use usbq_core.Msg.Copy.{Fits}
use usbq_core.Part.Accounts.{Gives}
use usbq_core.Tests.Data.{disk, disk-IsDevice, storage, zeros-Allocates}
use usbq_core.Tests.Endpoints.{kernel}
use usbq_core.Types.{ep_dir_from_kernel, ep_type_from_kernel, epid_of_desc}
use usbq_core.Prelude.{[], arith, byte_at, inr, pos, read16, refl, some, ℕ, ◌∷◌, ◌≡◌}

-- The kernel, with the interface of the disk.
abbrev pub disk_interface : UsbInterface
disk_interface = record { altsetting = storage ∷ []; cur_altsetting = storage }

abbrev pub attached : Kernel ℕ
attached = record kernel {
  usb_ifnum_to_if = λ i w. some disk_interface;
  usb_altnum_to_altsetting = λ i a. some storage;
  actconfig = λ w. record { desc = disk.config_desc; interface = disk_interface ∷ [] };
}

pub attached-Gives : Gives attached
attached-Gives w = zeros-Allocates

pub storage-IsKernelAltsetting : IsKernelAltsetting storage
unfolding byte_at epid_of_desc ep_type_from_kernel ep_dir_from_kernel read16
storage-IsKernelAltsetting = (record { other = refl; packet = omega arith }, tt)

pub disk_interface-IsKernelInterface : IsKernelInterface disk_interface
disk_interface-IsKernelInterface = record {
  all = (storage-IsKernelAltsetting, tt);
  current = storage-IsKernelAltsetting;
}

pub attached-Configures : Configures attached
unfolding byte_at
attached-Configures w = ((disk_interface-IsKernelInterface, tt), tt)

-- SET_INTERFACE 0 0 on control endpoint 0.
abbrev select_msg : Msg
select_msg = record {
  allocated_size = 8;
  size = 26;
  type = 0;
  body = 0 ∷ 0 ∷ 0 ∷ 0 ∷ 0 ∷ 0 ∷ 1 ∷ 0 ∷ 0 ∷ 0 ∷ 1 ∷ 11 ∷ 0 ∷ 0 ∷ 0 ∷ 0 ∷ 0 ∷ 0 ∷ [];
}

select_msg-Fits : Fits select_msg
unfolding msg_diff_size
select_msg-Fits = record {
  kind = omega arith;
  covers = omega arith;
  within = omega arith;
  small = omega arith;
}

select_msg-IsSendable : IsSendable (get_epid select_msg) select_msg
unfolding msg_get_data_size msg_diff_size byte_at read16
select_msg-IsSendable = record {
  fits = select_msg-Fits;
  within = omega arith;
  small = omega arith;
  request = λ _. omega arith;
  length_lt = omega arith;
}

select_msg-IsAccepted : IsAccepted attached select_msg
select_msg-IsAccepted _ = record {
  sendable = inr select_msg-IsSendable;
  offers = λ _ w. (
    disk_interface, refl, disk_interface-IsKernelInterface, storage, refl,
    storage-IsKernelAltsetting,
  );
}

-- Nothing is plugged in.
abbrev pub free_port : DriverState ℕ
free_port = record {
  own = record { init = 0 };
  eplist = [];
  heap = record { world = 0; live = 0; next = 0 };
}

pub begun : ubq_driver_init attached free_port ≡ some (pos 0, free_port)
unfolding ubq_driver_init open_driver ubq_enable_device probe_unbound probe_interfaces
begun = refl

-- The disk is there.
pub probed :
    (t : DriverState ℕ) × (handle_event attached (plug disk) free_port ≡ some (tt, t))
    × IsSteady 0 t
probed =
    driver_event-IsSteady attached attached-Gives attached-Configures free_port free_port free_port
      (pos 0) (plug disk) begun begins disk-IsDevice

driver_event-IsSteady_example :
    (t : DriverState ℕ) × (handle_event attached (from_userland select_msg) (probed.0)
      ≡ some (tt, t))
    × IsSteady 0 t
driver_event-IsSteady_example =
    driver_event-IsSteady attached attached-Gives attached-Configures free_port free_port (probed.0)
      (pos 0) (from_userland select_msg) begun
      (then_after (plug disk) begins disk-IsDevice (probed.1)) select_msg-IsAccepted
