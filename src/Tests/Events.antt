-- ===== src/Tests/Events.antt =====
-- A disk is plugged in, then the host asks for its descriptor.
use usbq_core.Gadget.{GadgetState}
use usbq_core.Gadget.Dispatch.{ubq_gadget_init}
use usbq_core.Gadget.Plugging.{AllUsable}
use usbq_core.Gadget.Replacing.{Accepted, for_device}
use usbq_core.Gadget.Running.{
  start, then_event, Possible, gadget_event-IsSound, handle, message, setup,
}
use usbq_core.Gadget.Sound.{IsSound}
use usbq_core.Gadget.State.{ep_match_name, find_usb_ep}
use usbq_core.Gadget.Switching.{Narrow}
use usbq_core.Identity.Build.{visited}
use usbq_core.Identity.Built.{altsettings}
use usbq_core.Tests.Data.{
  disk, disk-IsAnnounced, disk_msg, disk_msg-IsPacket, no_identity-IsIdentity,
}
use usbq_core.Tests.Endpoints.{kernel, kernel-Gives}
use usbq_core.Tests.Gadget.{ep1in, get_device, udc, udc-Dequeues, unplugged}
use usbq_core.Tests.Packets.{two}
use usbq_core.Types.{ep_dir_from_kernel, ep_type_from_kernel, epid_of_desc}
use usbq_core.Prelude.{
  Bool-cases, [], arith, byte_at, inl, inr, none, pos, read16, refl, some, subst, ℕ, ◌<◌, ◌∷◌, ◌≡◌,
}

udc-Narrow : Narrow udc
unfolding find_usb_ep
udc-Narrow name w ep e = elim (Bool-cases (ep_match_name name ep1in.name)) [
  | inl same ↦
      let first : find_usb_ep name (ep1in ∷ []) ≡ some ep1in = rw (same, find_usb_ep) in
      let found : ep1in ≡ ep = cc in subst (λ x. x.maxpacket_limit < 65536) found (omega arith)
  | inr other ↦ let nothing : find_usb_ep name (ep1in ∷ []) ≡ none = rw (other, find_usb_ep) in cc
]

disk-AllUsable : AllUsable (altsettings (visited disk))
unfolding altsettings byte_at epid_of_desc ep_type_from_kernel ep_dir_from_kernel read16
disk-AllUsable =
    (((record { long = omega arith; packet = omega arith; other = refl; served = refl }, tt), tt))

disk-Accepted : Accepted disk_msg
disk-Accepted = for_device disk disk-IsAnnounced disk_msg-IsPacket two disk-AllUsable

started : ubq_gadget_init kernel udc unplugged ≡ some (pos 0, unplugged)
unfolding ubq_gadget_init
started = refl

-- The disk is there.
plugged :
    (t : GadgetState ℕ) × (handle kernel udc (message disk_msg) unplugged ≡ some (tt, t))
    × IsSound 0 t
plugged =
    gadget_event-IsSound kernel udc kernel-Gives udc-Narrow udc-Dequeues unplugged unplugged
      unplugged (pos 0) (message disk_msg) no_identity-IsIdentity refl started start disk-Accepted

asked : Possible (plugged.0) (setup get_device)
unfolding byte_at read16
asked = (refl, omega arith)

gadget_event-IsSound_example :
    (t : GadgetState ℕ) × (handle kernel udc (setup get_device) (plugged.0) ≡ some (tt, t))
    × IsSound 0 t
gadget_event-IsSound_example =
    gadget_event-IsSound kernel udc kernel-Gives udc-Narrow udc-Dequeues unplugged unplugged
      (plugged.0) (pos 0) (setup get_device) no_identity-IsIdentity refl started
      (then_event (message disk_msg) start disk-Accepted (plugged.1)) asked
