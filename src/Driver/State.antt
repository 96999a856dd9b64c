-- ===== src/Driver/State.antt =====
-- The state of driver.c, and its endpoint management.
use usbq_core.Action.{Act, ◌▷◌}
use usbq_core.Endpoint.{Endpoint, Heap, Kernel, Request, Urb, find_endpoint, free_endpoint, release}
use usbq_core.Part.{
  Part, add_endpoint, add_ep0_endpoint, for_each_endpoint, list_del, on_eplist, on_heap,
}
use usbq_core.Types.{Epid}
use usbq_core.Prelude.{Bytes, List, Option, [], some, ℕ, ◌∷◌}

-- driver_state, driver_endpoint_t, driver_request_t. The sizes of the structs are those of a 32-bit
-- machine.
pub record DriverFlags : Type 0 where
  pub init : ℕ

abbrev pub DriverState : Type 0 → Type 0
DriverState W = Part DriverFlags Urb (Unit {0}) W

abbrev pub DriverEndpoint : Type 0
DriverEndpoint = Endpoint Urb (Unit {0})

abbrev pub DriverRequest : Type 0
DriverRequest = Request Urb

-- driver_state.init = n
abbrev pub set_init : {W : Type 0} → ℕ → DriverState W → DriverState W
set_init n s = record s { own = record { init = n } }

module _ {W : Type 0} (k : Kernel W) where
  unfoldable pub add_driver_ep0_endpoint : ℕ → Act (DriverState W) (Option DriverEndpoint)
  add_driver_ep0_endpoint epdir = add_ep0_endpoint k tt 64 epdir

  unfoldable pub add_driver_endpoint : Bytes → Act (DriverState W) (Option DriverEndpoint)
  add_driver_endpoint epdesc = add_endpoint k tt 64 epdesc

  unfoldable pub find_driver_endpoint : Epid → Act (DriverState W) (Option DriverEndpoint)
  find_driver_endpoint id s = some (find_endpoint id s.eplist, s)

  -- cancel_driver_request, and what its completion does: the status is -ENOENT, so that `recv`
  -- frees the request. free_endpoint waits for that completion.
  unfoldable pub cancel_driver_request : DriverRequest → Heap W → Heap W
  cancel_driver_request req h =
      release k (release k (release k (record h { world = k.usb_kill_urb req.transfer h.world })))

  unfoldable pub cancel_requests : List DriverRequest → Heap W → Heap W
  cancel_requests [] h = h
  cancel_requests (req ∷ list) h = cancel_requests list (cancel_driver_request req h)

  unfoldable pub free_driver_endpoint : DriverEndpoint → Act (DriverState W) (Unit {0})
  free_driver_endpoint ep = on_eplist (list_del ep.ref) ▷ λ _.
      on_heap (λ h. (tt {0}, release k (free_endpoint k ep (cancel_requests ep.reqlist h))))

  unfoldable pub clean_endpoints : Act (DriverState W) (Unit {0})
  clean_endpoints s = for_each_endpoint free_driver_endpoint s.eplist s
