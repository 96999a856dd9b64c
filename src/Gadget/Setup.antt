-- ===== src/Gadget/Setup.antt =====
-- gadget.c: the control requests of the host (lines 1141-1264). `c` is the eight bytes of the
-- struct usb_ctrlrequest.
use usbq_core.Action.{Act, lift, ret, ◌▷◌}
use usbq_core.Endpoint.{Kernel, allocate, release}
use usbq_core.Gadget.{GadgetEndpoint, GadgetState, Udc}
use usbq_core.Gadget.Callbacks.{ep_gadget_send_userland}
use usbq_core.Gadget.Interfaces.{set_interface}
use usbq_core.Gadget.Requests.{ep_gadget_send_usb}
use usbq_core.Gadget.State.{find_gadget_endpoint}
use usbq_core.Msg.{Msg, alloc_msg, data_type, msg_set_id, msgcpy}
use usbq_core.Part.{msg_memory, on_heap, with_msg}
use usbq_core.Types.{Epid, dir_of_ctrl, is_out, is_set_interface, w_index, w_length, w_value}
use usbq_core.Prelude.{
  Bytes, Option, einval, enomem, false, if◌then◌else◌, is_neg, none, not, pos, some, true, ℤ, ◌&&◌,
  ◌==◌, ◌>>=◌,
}

-- epid
unfoldable pub setup_id : Bytes → Epid
setup_id c = record { num = 0; type = 0; dir = dir_of_ctrl c }

-- msg_set_id and msgcpy
unfoldable pub setup_msg : GadgetEndpoint → Bytes → Msg → Option Msg
setup_msg ep c msg = do m ← msg_set_id msg 0 0 ep.epid.dir; msgcpy m c

module _ {W : Type 0} (k : Kernel W) (g : Udc W) where
  -- The switch on the standard requests.
  unfoldable pub standard_request : Bytes → Act (GadgetState W) ℤ
  standard_request c =
      if is_set_interface c then set_interface k g (w_index c) (w_value c) else ret (pos 0)

  -- Tell userland, and acknowledge a request without data.
  unfoldable pub forward_setup : GadgetEndpoint → Bytes → Msg → Act (GadgetState W) (Unit {0})
  forward_setup ep c msg = ep_gadget_send_userland k g msg ▷ λ err.
      if not (is_neg err) && is_out ep.epid && w_length c == 0
      then ep_gadget_send_usb k g ep (some msg) ▷ (λ _. ret tt)
      else ret tt

  -- handle_setup from the message on. An OUT request with data has to ask the host for it first.
  unfoldable pub dispatch_setup : GadgetEndpoint → Bytes → Msg → Act (GadgetState W) (Unit {0})
  dispatch_setup ep c msg =
      if is_out ep.epid && not (w_length c == 0)
      then ep_gadget_send_usb k g ep (some msg) ▷ (λ _. ret tt)
      else standard_request c ▷ λ err. if is_neg err then ret tt else forward_setup ep c msg

  unfoldable pub setup_with : GadgetEndpoint → Bytes → Option Msg → Act (GadgetState W) (Unit {0})
  setup_with ep c none = ret tt
  setup_with ep c (some msg) = lift (setup_msg ep c msg) ▷ dispatch_setup ep c

  -- handle_setup: at its end `ctrl` and the struct around it are freed, the message is not.
  unfoldable pub handle_setup : Bytes → Act (GadgetState W) (Unit {0})
  handle_setup c =
      find_gadget_endpoint k g (setup_id c)
      ▷ (elim [
        | none ↦ ret tt
        | some ep ↦
            with_msg k (msg_memory 8 data_type) (λ kmalloc. alloc_msg kmalloc 8 data_type)
            ▷ setup_with ep c
      ])
      ▷ λ _. on_heap (λ h. (tt {0}, release k (release k h)))

  -- ubq_setup from the first allocation on; the work that is queued runs at once.
  unfoldable pub queue_setup : Bytes → Act (GadgetState W) ℤ
  queue_setup c = on_heap (allocate k 20) ▷ elim [
    | false ↦ ret enomem
    | true ↦ on_heap (allocate k 8) ▷ elim [
      | false ↦ on_heap (λ h. (tt {0}, release k h)) ▷ λ _. ret enomem
      | true ↦ handle_setup c ▷ λ _. ret (pos 0)
    ]
  ]

  unfoldable pub ubq_setup : Bytes → Act (GadgetState W) ℤ
  ubq_setup c =
      find_gadget_endpoint k g (setup_id c) ▷ elim [ none ↦ ret einval | some ep ↦ queue_setup c ]
