-- ===== src/Driver/Cleanup.antt =====
-- clean_endpoints of driver.c.
use usbq_core.Action.{Ok}
use usbq_core.Driver.State.{
  DriverRequest, DriverState, cancel_driver_request, cancel_requests, clean_endpoints,
  free_driver_endpoint,
}
use usbq_core.Endpoint.{Heap, Kernel, release}
use usbq_core.Part.{list_del}
use usbq_core.Part.Cleanup.{Frees, for_each_endpoint-freed, free_endpoint-live, objects}
use usbq_core.Part.Lists.{list_del-head}
use usbq_core.Prelude.{List, [], ap, arith, length, refl, ℕ, ◌*◌, ◌+◌, ◌-◌, ◌∙◌, ◌∷◌, ◌≡◌}

module _ {W : Type 0} (k : Kernel W) where
  pub cancel_requests-live :
      (list : List DriverRequest) (h : Heap W)
      → (cancel_requests k list h).live ≡ h.live - length list * 3
  unfolding cancel_requests cancel_driver_request release
  cancel_requests-live [] h = omega arith
  cancel_requests-live (req ∷ list) h =
      omega (arith, cancel_requests-live list (cancel_driver_request k req h))

  free_driver_endpoint-Accounted : Frees (free_driver_endpoint k)
  unfolding free_driver_endpoint objects
  free_driver_endpoint-Accounted own n ep list s a = record {
    own_eq = a.own_eq;
    eplist_eq = ap (list_del ep.ref) a.eplist_eq ∙ list_del-head ep list;
    live_eq = omega (
      arith,
      free_endpoint-live k ep ep.desc (cancel_requests k ep.reqlist s.heap) refl,
      cancel_requests-live ep.reqlist s.heap,
      a.live_eq,
    );
  }

  -- If `n` objects are allocated besides those of endpoints and requests, clean_endpoints never
  -- leaves the memory, leaves no endpoint, and leaves `n` objects allocated.
  pub clean_endpoints-Accounted :
      (n : ℕ) (s : DriverState W)
      → s.heap.live ≡ objects s.eplist + n
      → Ok (λ _ s'. (s'.eplist ≡ []) × (s'.heap.live ≡ n) × (s'.own ≡ s.own)) (clean_endpoints k s)
  unfolding clean_endpoints
  clean_endpoints-Accounted =
      for_each_endpoint-freed (free_driver_endpoint k) free_driver_endpoint-Accounted
