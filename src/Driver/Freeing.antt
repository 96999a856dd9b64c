-- ===== src/Driver/Freeing.antt =====
-- The release of a request of driver.c that is done, on a steady state.
use usbq_core.Action.{Ok}
use usbq_core.Driver.Request.{ep_free_driver_request, free_driver_request}
use usbq_core.Driver.Sound.{IsLinked, IsWatched, Readable, Watch}
use usbq_core.Driver.State.{DriverEndpoint, DriverRequest, DriverState}
use usbq_core.Endpoint.{Kernel, release}
use usbq_core.Part.{at_ref}
use usbq_core.Part.Cleanup.{objects}
use usbq_core.Part.Held.{
  Every-list_del_request, drop_request, drop_request-Distinct, objects-drop_request,
}
use usbq_core.Part.Members.{Every-at_ref}
use usbq_core.Part.Requests.{free_request}
use usbq_core.Prelude.{arith, none, some, ℕ, ℤ, ◌+◌, ◌<◌, ◌≡◌}

-- The request as the kernel gives it back.
abbrev pub with_urb_result : ℤ → ℕ → DriverRequest → DriverRequest
with_urb_result status actual_length req = record req {
  transfer = record req.transfer { status = status; actual_length = actual_length };
}

drop_request-IsLinked : (r : ℕ) (ep : DriverEndpoint) → IsLinked ep → IsLinked (drop_request r ep)
drop_request-IsLinked r ep v = record {
  real = v.real;
  described = v.described;
  requests = Every-list_del_request (Readable ep.epid) r ep.reqlist v.requests;
}

-- The request, while it is being completed.
abbrev pub watch_of : DriverEndpoint → DriverRequest → Watch
watch_of ep req = record { ref = ep.ref; request_ref = req.ref; epid = ep.epid }

module _ {W : Type 0} (k : Kernel W) (n : ℕ) (ep : DriverEndpoint) (req : DriverRequest) where
  pub freed :
      (s : DriverState W)
      → IsWatched n (some (watch_of ep req)) s
      → Ok (λ _ s. IsWatched n none s) (ep_free_driver_request k ep req s)
  unfolding ep_free_driver_request free_driver_request free_request release
  freed s j =
      let less : objects (at_ref ep.ref (drop_request req.ref) s.eplist) + 3 ≡ objects s.eplist =
        objects-drop_request ep.ref req.ref s.eplist (j.watched.0) in
      record {
        steady = record {
          addressed = record {
            distinct = drop_request-Distinct ep.ref req.ref s.eplist j.steady.addressed.distinct;
            before =
                Every-at_ref (λ x. x.ref < s.heap.next) IsLinked ep.ref (drop_request req.ref)
                  (λ x _ h _. h) s.eplist j.steady.addressed.before j.steady.linked;
          };
          linked =
              Every-at_ref IsLinked IsLinked ep.ref (drop_request req.ref)
                (λ x _ h _. drop_request-IsLinked req.ref x h) s.eplist j.steady.linked
                j.steady.linked;
          live_le = omega (arith, less, j.steady.live_le);
        };
        watched = tt;
      }
