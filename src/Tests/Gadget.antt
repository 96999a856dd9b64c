-- ===== src/Tests/Gadget.antt =====
-- A gadget layer with one endpoint, and the theorems on the gadget at work.
use usbq_core.Action.{Ok}
use usbq_core.Endpoint.{find_endpoint}
use usbq_core.Gadget.{GadgetEndpoint, GadgetRequest, GadgetState, Udc, UsbEp}
use usbq_core.Gadget.Adding.{Joined, add_gadget_endpoint-Joined}
use usbq_core.Gadget.Asking.{IsQuery, Told, ubq_setup-Told}
use usbq_core.Gadget.Awaiting.{Awaits, IsSink, ep_gadget_send_usb-Awaits}
use usbq_core.Gadget.Binding.{Binds}
use usbq_core.Gadget.Callbacks.{gadget_recv_usb}
use usbq_core.Gadget.Cleanup.{
  Dequeues, Disconnected, clean_gadget_endpoints-Accounted, gadget_recv_userland-Disconnected,
}
use usbq_core.Gadget.Completing.{Reported, gadget_recv_usb-Reported}
use usbq_core.Gadget.Copying.{IsCarried}
use usbq_core.Gadget.Disabling.{Removed, Tidy, disable_interface-Removed, with_active}
use usbq_core.Gadget.Dispatch.{gadget_recv_userland}
use usbq_core.Gadget.Interfaces.{disable_interface}
use usbq_core.Gadget.Limits.{Configured, usb_ep_config-Configured}
use usbq_core.Gadget.Presenting.{Presented, gadget_recv_userland-Presented}
use usbq_core.Gadget.Requests.{ep_gadget_send_usb, init_request}
use usbq_core.Gadget.Sending.{Answers, Offered, ep_gadget_send_usb-Offered}
use usbq_core.Gadget.Setup.{setup_id, ubq_setup}
use usbq_core.Gadget.State.{
  add_gadget_endpoint, clean_gadget_endpoints, decimal, ep_match_name, ep_name, find_usb_ep,
  usb_ep_config,
}
use usbq_core.Identity.{Identity, InterfaceDesc, b_num_endpoints}
use usbq_core.Identity.RoundTrip.{behind_data}
use usbq_core.Part.{at_ref}
use usbq_core.Part.Accounts.{Grew, Pushed}
use usbq_core.Part.Adding.{ep0}
use usbq_core.Part.Cleanup.{objects}
use usbq_core.Tests.Data.{
  bulk_desc, bulk_in, bulk_in-IsNarrow, data_msg, data_msg-Fits, disk, disk-IsAnnounced, disk_msg,
  disk_msg-IsPacket, no_identity, no_identity-IsIdentity, storage,
}
use usbq_core.Tests.Endpoints.{kernel, kernel-Gives, reset_msg}
use usbq_core.Tests.Packets.{two}
use usbq_core.Types.{ep_dir_from_kernel, epid_of_desc}
use usbq_core.Prelude.{
  Bytes, [], arith, byte_at, inr, map, negsuc, none, pos, read16, read32, refl, some, subst, suc,
  take, true, ℕ, ◌+◌, ◌<◌, ◌∷◌, ◌≡◌,
}

-- The endpoint "ep1in", which takes packets of 32 bytes.
abbrev pub ep1in : UsbEp
ep1in = record { name = 101 ∷ 112 ∷ 49 ∷ 105 ∷ 110 ∷ []; maxpacket_limit = 32 }

abbrev pub udc : Udc ℕ
udc = record {
  ep0 = λ w. record { name = 101 ∷ 112 ∷ 48 ∷ []; maxpacket_limit = 64 };
  ep_list = λ w. ep1in ∷ [];
  usb_ep_alloc_request = λ ep w. (true, w);
  usb_ep_queue = λ ep req w. (pos 0, w);
  usb_ep_dequeue = λ ep req w. (pos 0, w);
  usb_ep_fifo_flush = λ ep w. w;
  usb_ep_enable = λ ep desc w. (pos 0, w);
  usb_ep_disable = λ ep w. (pos 0, w);
  usb_ep_set_halt = λ ep w. (pos 0, w);
  usb_ep_autoconfig_reset = λ w. w;
  usb_ep_autoconfig_release = λ ep w. w;
  probe_driver = λ w. (none, w);
  udc_start = λ w. (pos 0, w);
  unregister_driver = λ w. w;
  uninitialised = λ w. negsuc 0;
  com_init = λ w. (true, w);
  com_send = λ m w. (pos 12, suc w);
  com_close = λ w. w;
}

pub udc-Dequeues : Dequeues udc
udc-Dequeues ep req w = refl

udc-Binds : Binds udc
udc-Binds = record { at_once = λ w. refl; negative = λ w. refl }

-- The disk's only interface.
abbrev storage_interface : InterfaceDesc
storage_interface = record { desc = storage.desc; endpoints = bulk_desc ∷ []; active = 1 }

abbrev disk_identity : Identity
disk_identity = record {
  speed = 3;
  device = disk.descriptor;
  conf = disk.config_desc;
  nb_int = 1;
  interfaces = storage_interface ∷ [];
}

abbrev bulk_source : GadgetEndpoint
bulk_source = record {
  ref = 5;
  epid = bulk_in;
  desc = some bulk_desc;
  reqlist = [];
  usb_ep = ep1in;
}

abbrev ep0_in : GadgetEndpoint
ep0_in = record { ref = 1; epid = ep0 0; desc = none; reqlist = []; usb_ep = ep1in }

abbrev pub presented : GadgetState ℕ
presented = record {
  own = record { registered = 1; identity = disk_identity };
  eplist = bulk_source ∷ (ep0_in ∷ []);
  heap = record { world = 0; live = 5; next = 9 };
}

-- The state before any device.
abbrev pub unplugged : GadgetState ℕ
unplugged = record {
  own = record { registered = 0; identity = no_identity };
  eplist = [];
  heap = record { world = 0; live = 0; next = 1 };
}

gadget_recv_userland-Presented_example :
    Ok
      (Presented disk (behind_data disk_msg) unplugged 0)
      (gadget_recv_userland kernel udc disk_msg unplugged)
gadget_recv_userland-Presented_example =
    gadget_recv_userland-Presented kernel kernel-Gives udc udc-Binds udc-Dequeues disk
      disk-IsAnnounced disk_msg disk_msg-IsPacket two 0 unplugged no_identity-IsIdentity
      (unfold objects in refl) (inr refl)

data_msg-IsCarried : IsCarried data_msg
data_msg-IsCarried = record { fits = data_msg-Fits; usb = omega arith; small = omega arith }

ep_gadget_send_usb-Offered_example :
    Ok
      (Offered kernel udc presented bulk_source (Answers bulk_source data_msg))
      (ep_gadget_send_usb kernel udc bulk_source (some data_msg) presented)
ep_gadget_send_usb-Offered_example =
    ep_gadget_send_usb-Offered kernel kernel-Gives udc bulk_source bulk_in-IsNarrow (omega arith)
      refl data_msg data_msg-IsCarried (omega arith) presented

-- The endpoint 2 OUT.
abbrev bulk_sink : GadgetEndpoint
bulk_sink = record {
  ref = 6;
  epid = record { num = 2; type = 2; dir = 1 };
  desc = some (7 ∷ 5 ∷ 2 ∷ 2 ∷ 64 ∷ 0 ∷ 0 ∷ 0 ∷ 0 ∷ []);
  reqlist = [];
  usb_ep = ep1in;
}

bulk_sink-IsSink : IsSink bulk_sink
unfolding read16 byte_at
bulk_sink-IsSink = record {
  desc = 7 ∷ 5 ∷ 2 ∷ 2 ∷ 64 ∷ 0 ∷ 0 ∷ 0 ∷ 0 ∷ [];
  desc_eq = refl;
  narrow = record { num_lt = omega arith; type_lt = omega arith; dir_lt = omega arith };
  kind = refl;
  sinks = refl;
  packet = omega arith;
}

ep_gadget_send_usb-Awaits_example :
    Ok
      (Offered kernel udc presented bulk_sink (Awaits bulk_sink bulk_sink-IsSink.desc))
      (ep_gadget_send_usb kernel udc bulk_sink none presented)
ep_gadget_send_usb-Awaits_example =
    ep_gadget_send_usb-Awaits kernel kernel-Gives udc bulk_sink bulk_sink-IsSink presented

presented-live : presented.heap.live ≡ objects presented.eplist + 0
unfolding objects
presented-live = refl

gadget_recv_userland-Disconnected_example :
    Ok
      (Disconnected kernel udc udc-Dequeues presented 0)
      (gadget_recv_userland kernel udc reset_msg presented)
gadget_recv_userland-Disconnected_example =
    gadget_recv_userland-Disconnected kernel udc udc-Dequeues reset_msg 0 presented
      (unfold read32 byte_at in refl) presented-live

clean_gadget_endpoints-Accounted_example :
    Ok
      (λ _ s'. (s'.eplist ≡ []) × (s'.heap.live ≡ 0) × (s'.own ≡ presented.own))
      (clean_gadget_endpoints kernel udc presented)
clean_gadget_endpoints-Accounted_example =
    clean_gadget_endpoints-Accounted kernel udc udc-Dequeues 0 presented presented-live

presented-Tidy : Tidy 0 presented
presented-Tidy = record {
  addressed = record {
    distinct = ((omega arith, tt), (tt, tt));
    before = (omega arith, (omega arith, tt));
  };
  live_eq = presented-live;
}

disable_interface-Removed_example :
    Ok
      (λ err s'.
        (err ≡ pos 0)
        × Removed 0
            (with_active kernel udc udc-Dequeues 0 0 0 storage_interface presented.own)
            (map epid_of_desc (take (b_num_endpoints storage_interface.desc) (bulk_desc ∷ [])))
            presented.eplist
            s')
      (disable_interface kernel udc 0 presented)
disable_interface-Removed_example =
    disable_interface-Removed kernel udc udc-Dequeues 0 0 storage_interface presented refl
      (unfold byte_at in omega arith) presented-Tidy

-- The only usb_ep that can be found is "ep1in".
found_ep1in :
    (ep : UsbEp)
    → find_usb_ep (ep_name bulk_desc) (ep1in ∷ []) ≡ some ep
    → ep.maxpacket_limit < 65536
found_ep1in ep e =
    let found : find_usb_ep (ep_name bulk_desc) (ep1in ∷ []) ≡ some ep1in =
      unfold find_usb_ep ep_name ep_match_name decimal byte_at in refl in
    let same : ep1in ≡ ep = cc in subst (λ u. u.maxpacket_limit < 65536) same (omega arith)

usb_ep_config-Configured_example :
    Ok
      (Configured 0 0 storage_interface bulk_desc presented refl refl udc)
      (usb_ep_config kernel udc 0 0 presented)
usb_ep_config-Configured_example =
    usb_ep_config-Configured 0 0 storage_interface bulk_desc presented refl refl kernel udc
      (omega arith) found_ep1in

add_gadget_endpoint-Joined_example :
    Ok
      (Joined kernel kernel-Gives udc 0 0 storage_interface bulk_desc presented refl refl)
      (add_gadget_endpoint kernel udc 0 0 presented)
add_gadget_endpoint-Joined_example =
    add_gadget_endpoint-Joined kernel kernel-Gives udc 0 0 storage_interface bulk_desc presented
      refl refl presented-Tidy.addressed (omega arith) found_ep1in

-- GET_DESCRIPTOR of the device.
abbrev pub get_device : Bytes
get_device = 0x80 ∷ 6 ∷ 0 ∷ 1 ∷ 0 ∷ 0 ∷ 18 ∷ 0 ∷ []

get_device-IsQuery : IsQuery get_device presented
unfolding byte_at ep_dir_from_kernel setup_id find_endpoint
get_device-IsQuery = record { eight = refl; asks = refl; other = refl; ep = ep0_in; found = refl }

ubq_setup-Told_example :
    Ok
      (Told kernel kernel-Gives udc get_device presented get_device-IsQuery)
      (ubq_setup kernel udc get_device presented)
ubq_setup-Told_example =
    ubq_setup-Told kernel kernel-Gives udc get_device presented get_device-IsQuery

abbrev sent_request : GadgetRequest
sent_request = record { ref = 8; msg = data_msg; transfer = init_request data_msg }

-- The state with that request waiting.
abbrev sending : GadgetState ℕ
sending = record {
  own = presented.own;
  eplist = record bulk_source { reqlist = sent_request ∷ [] } ∷ (ep0_in ∷ []);
  heap = record { world = 0; live = 8; next = 9 };
}

sending-Pushed : Pushed presented 5 sent_request sending
unfolding at_ref
sending-Pushed = record { own_eq = refl; pushed = refl; live_eq = refl; next_le = omega arith }

gadget_recv_usb-Reported_example :
    Ok
      (λ _ s'.
        Grew presented 0 s'
        × Reported kernel kernel-Gives udc presented bulk_source sent_request sending s')
      (gadget_recv_usb kernel udc bulk_source sent_request sending)
gadget_recv_usb-Reported_example =
    gadget_recv_usb-Reported kernel kernel-Gives udc presented bulk_source sent_request sending
      (record {
        real = record { type_le = omega arith; dir_le = omega arith };
        narrow = bulk_in-IsNarrow;
      })
      refl refl refl sending-Pushed
