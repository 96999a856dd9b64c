-- ===== src/Gadget.antt =====
-- gadget.h: the state of the part that talks to the host, and what it needs of the kernel.
pub mod State
pub mod Requests
pub mod Interfaces
pub mod Callbacks
pub mod Setup
pub mod Dispatch
pub mod Cleanup
pub mod Copying
pub mod Sending
pub mod Binding
pub mod Presenting
pub mod Disabling
pub mod Limits
pub mod Adding
pub mod Awaiting
pub mod Asking
pub mod Completing
pub mod Usable
pub mod Sound
pub mod Offering
pub mod Switching
pub mod Enabling
pub mod Selecting
pub mod Relaying
pub mod Hosting
pub mod Serving
pub mod Replacing
pub mod Finishing
pub mod Running
pub mod Plugging
use usbq_core.Endpoint.{Endpoint, Request}
use usbq_core.Identity.{Identity}
use usbq_core.Msg.{Msg}
use usbq_core.Part.{Part}
use usbq_core.Prelude.{Bool, Bytes, List, Option, zero, ℕ, ℤ}

-- A struct usb_ep, as far as it is read, and a struct usb_request, whose buffer is an offset in the
-- body of the message of the request.
pub record UsbEp : Type 0 where
  pub name : Bytes
  pub maxpacket_limit : ℕ

pub record UsbRequest : Type 0 where
  pub buf : ℕ
  pub length : ℕ
  pub zero : Bool
  pub status : ℤ
  pub actual : ℕ

-- gadget_state: what it has besides the endpoints. The usb_gadget is within the kernel.
pub record GadgetFlags : Type 0 where
  pub registered : ℕ
  pub identity : Identity

abbrev pub GadgetState : Type 0 → Type 0
GadgetState W = Part GadgetFlags UsbRequest UsbEp W

abbrev pub GadgetEndpoint : Type 0
GadgetEndpoint = Endpoint UsbRequest UsbEp

abbrev pub GadgetRequest : Type 0
GadgetRequest = Request UsbRequest

-- The gadget layer of the kernel, and the com_t of the gadget. usb_ep_enable has the descriptor
-- that usb_ep->desc points to. `probe_driver` is usb_gadget_probe_driver up to its call of
-- ubq_bind: an answer without that call, or none; `udc_start` is what follows it. `uninitialised`
-- is what the variable `err` of ubq_bind holds, which is returned without a value.
pub record Udc (W : Type 0) : Type 0 where
  pub ep0 : W → UsbEp
  pub ep_list : W → List UsbEp
  pub usb_ep_alloc_request : UsbEp → W → Bool × W
  pub usb_ep_queue : UsbEp → UsbRequest → W → ℤ × W
  pub usb_ep_dequeue : UsbEp → UsbRequest → W → ℤ × W
  pub usb_ep_fifo_flush : UsbEp → W → W
  pub usb_ep_enable : UsbEp → Option Bytes → W → ℤ × W
  pub usb_ep_disable : UsbEp → W → ℤ × W
  pub usb_ep_set_halt : UsbEp → W → ℤ × W
  pub usb_ep_autoconfig_reset : W → W
  pub usb_ep_autoconfig_release : UsbEp → W → W
  pub probe_driver : W → Option ℤ × W
  pub udc_start : W → ℤ × W
  pub unregister_driver : W → W
  pub uninitialised : W → ℤ
  pub com_init : W → Bool × W
  pub com_send : Msg → W → ℤ × W
  pub com_close : W → W
