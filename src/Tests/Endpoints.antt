-- ===== src/Tests/Endpoints.antt =====
-- A kernel, and the theorems on endpoints at work.
use usbq_core.Action.{Ok}
use usbq_core.Driver.Adding.{add_driver_endpoint-Added}
use usbq_core.Driver.Callbacks.{ep_driver_send_usb}
use usbq_core.Driver.Cleanup.{clean_endpoints-Accounted}
use usbq_core.Driver.Completion.{recv-freed}
use usbq_core.Driver.Dispatch.{driver_disconnect, driver_recv_userland, recv}
use usbq_core.Driver.Dispatching.{driver_disconnect-Accounted}
use usbq_core.Driver.Probe.{Probed, driver_probe, driver_probe-Probed}
use usbq_core.Driver.Request.{init_urb}
use usbq_core.Driver.Reset.{Stopped, driver_recv_userland-Stopped}
use usbq_core.Driver.Sending.{IsReceiver, Sent, ep_driver_send_usb-Sent}
use usbq_core.Driver.State.{
  DriverEndpoint, DriverRequest, DriverState, add_driver_endpoint, clean_endpoints,
}
use usbq_core.Endpoint.{Kernel, find_endpoint, same_epid}
use usbq_core.Endpoint.Find.{NoneSame, find_endpoint-first}
use usbq_core.Msg.{Msg}
use usbq_core.Part.{at_ref}
use usbq_core.Part.Accounts.{Gives, Grew, Pushed}
use usbq_core.Part.Adding.{Added}
use usbq_core.Part.Cleanup.{objects}
use usbq_core.Tests.Data.{
  bulk_desc, bulk_in, bulk_in-IsNarrow, data_msg, disk, disk-IsDevice, zeros, zeros-Allocates,
}
use usbq_core.Prelude.{
  List, [], arith, byte_at, false, is_neg, none, pos, read16, read32, refl, some, suc, true, ℕ,
  ◌++◌, ◌∷◌, ◌≡◌, ◌⊎◌,
}

-- A kernel with memory for everything, whose state counts the messages sent.
abbrev pub kernel : Kernel ℕ
kernel = record {
  kmalloc = λ n w. (zeros n, w);
  usb_alloc_urb = λ n w. (true, w);
  usb_submit_urb = λ urb w. (pos 0, w);
  usb_kill_urb = λ urb w. w;
  int_interval = λ w b. b;
  usb_clear_halt = λ pipe w. (pos 0, w);
  usb_set_interface = λ i a w. (pos 0, w);
  usb_ifnum_to_if = λ i w. none;
  usb_altnum_to_altsetting = λ i a. none;
  actconfig = λ w. record { desc = []; interface = [] };
  usb_register = λ w. (pos 0, w);
  unbound = λ w. [];
  bound = λ w. 1;
  usb_deregister = λ w. w;
  com_init = λ w. (true, w);
  com_close = λ w. w;
  com_send = λ m w. (pos 12, suc w);
}

pub kernel-Gives : Gives kernel
kernel-Gives w = zeros-Allocates

abbrev bulk_request : DriverRequest
bulk_request = record { ref = 8; msg = data_msg; transfer = init_urb }

abbrev bulk_endpoint : DriverEndpoint
bulk_endpoint = record { ref = 5; epid = bulk_in; desc = some bulk_desc; reqlist = []; usb_ep = tt }

abbrev pub running : DriverState ℕ
running = record {
  own = record { init = 1 };
  eplist = bulk_endpoint ∷ [];
  heap = record { world = 0; live = 3; next = 9 };
}

-- The state with a request that waits.
abbrev pub waiting : DriverState ℕ
waiting = record {
  own = record { init = 1 };
  eplist = record bulk_endpoint { reqlist = bulk_request ∷ [] } ∷ [];
  heap = record { world = 0; live = 6; next = 9 };
}

find_endpoint-first_example :
    ((find_endpoint bulk_in (bulk_endpoint ∷ []) ≡ none) × NoneSame bulk_in (bulk_endpoint ∷ []))
    ⊎ ((before after : List DriverEndpoint) × (ep : DriverEndpoint) × (find_endpoint bulk_in
            (bulk_endpoint ∷ [])
          ≡ some ep)
        × (bulk_endpoint ∷ [] ≡ before ++ (ep ∷ after))
        × NoneSame bulk_in before
        × (same_epid bulk_in ep.epid ≡ true))
find_endpoint-first_example = find_endpoint-first bulk_in (bulk_endpoint ∷ [])

bulk_endpoint-IsReceiver : IsReceiver bulk_endpoint
unfolding read16 byte_at
bulk_endpoint-IsReceiver = record {
  desc = bulk_desc;
  desc_eq = refl;
  narrow = bulk_in-IsNarrow;
  receives = refl;
  kind = omega arith;
  not_ctrl = refl;
  packet = omega arith;
}

ep_driver_send_usb-Sent_example :
    Ok (Sent kernel running bulk_endpoint) (ep_driver_send_usb kernel bulk_endpoint none running)
ep_driver_send_usb-Sent_example =
    ep_driver_send_usb-Sent kernel kernel-Gives running bulk_endpoint bulk_endpoint-IsReceiver

waiting-Pushed : Pushed running 5 bulk_request waiting
unfolding at_ref
waiting-Pushed = record { own_eq = refl; pushed = refl; live_eq = refl; next_le = omega arith }

clean_endpoints-Accounted_example :
    Ok
      (λ _ s'. (s'.eplist ≡ []) × (s'.heap.live ≡ 0) × (s'.own ≡ waiting.own))
      (clean_endpoints kernel waiting)
clean_endpoints-Accounted_example =
    clean_endpoints-Accounted kernel 0 waiting (unfold objects in refl)

add_driver_endpoint-Added_example :
    Ok (Added tt running bulk_desc) (add_driver_endpoint kernel bulk_desc running)
add_driver_endpoint-Added_example = add_driver_endpoint-Added kernel kernel-Gives bulk_desc running

-- A message for endpoint 1 in the state after everything was freed.
abbrev pub stopped : DriverState ℕ
stopped = record {
  own = record { init = 0 };
  eplist = [];
  heap = record { world = 0; live = 0; next = 9 };
}

driver_disconnect-Accounted_example :
    Ok
      (λ _ s'. (s'.own.init ≡ 0) × (s'.eplist ≡ []) × (s'.heap.live ≡ 0))
      (driver_disconnect kernel waiting)
driver_disconnect-Accounted_example =
    driver_disconnect-Accounted kernel kernel-Gives 0 waiting (omega arith) (unfold objects in refl)

driver_probe-Probed_example :
    Ok
      (λ err s'. (s'.own.init ≡ 1) × (is_neg err ≡ false → Probed stopped s'))
      (driver_probe kernel disk stopped)
driver_probe-Probed_example =
    driver_probe-Probed kernel kernel-Gives disk disk-IsDevice stopped refl

recv-freed_example : Ok (λ _ s'. Grew running 0 s') (recv kernel bulk_endpoint bulk_request waiting)
recv-freed_example =
    recv-freed kernel running bulk_endpoint bulk_request waiting (refl, refl, refl) refl
      waiting-Pushed

abbrev pub reset_msg : Msg
reset_msg = record { allocated_size = 0; size = 12; type = 2; body = 0 ∷ 0 ∷ 0 ∷ 0 ∷ [] }

driver_recv_userland-Stopped_example :
    Ok (Stopped kernel kernel-Gives 0) (driver_recv_userland kernel reset_msg waiting)
driver_recv_userland-Stopped_example =
    driver_recv_userland-Stopped kernel kernel-Gives 0 reset_msg waiting
      (unfold read32 byte_at in refl) (unfold objects in refl)
