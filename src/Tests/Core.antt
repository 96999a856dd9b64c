-- ===== src/Tests/Core.antt =====
-- Both parts together, the driver's table of endpoints, and a socket that gives one byte at a time.
use usbq_core.Action.{Ok}
use usbq_core.Core.{CoreState, ubq_core_exit}
use usbq_core.Core.Lifetime.{Cleaned, ubq_core_exit-Cleaned}
use usbq_core.Driver.Interfaces.{disable_endpoint}
use usbq_core.Driver.Refinement.{Adds, Takes, driver_endpoints-Stacks}
use usbq_core.Driver.State.{add_driver_endpoint, find_driver_endpoint}
use usbq_core.Part.Addresses.{Addressed}
use usbq_core.Part.Cleanup.{objects}
use usbq_core.Part.Stacks.{stack, top}
use usbq_core.Tests.Data.{bulk_desc, bulk_in, data_msg, disk, idle, socket}
use usbq_core.Endpoint.{Kernel}
use usbq_core.Tests.Endpoints.{kernel, kernel-Gives, stopped, waiting}
use usbq_core.Tests.Gadget.{presented, udc, udc-Dequeues, unplugged}
use usbq_core.Udp.{Net, Received, failed, received, udp_recv}
use usbq_core.Udp.Progress.{Progresses, Returned, udp_recv-Returned}
use usbq_core.Prelude.{Bytes, [], ap, arith, length, refl, some, ℕ, ◌∷◌, ◌≡◌}

abbrev fresh_core : CoreState ℕ
fresh_core = record { gadget = unplugged; driver = stopped }

-- The kernel, with the disk plugged in before the module is loaded.
abbrev plugged : Kernel ℕ
plugged = record kernel { unbound = λ w. disk ∷ [] }

abbrev busy_core : CoreState ℕ
busy_core = record { gadget = presented; driver = waiting }

ubq_core_exit-Cleaned_example :
    Ok (Cleaned kernel kernel-Gives udc udc-Dequeues 0 0) (ubq_core_exit kernel udc busy_core)
ubq_core_exit-Cleaned_example =
    ubq_core_exit-Cleaned kernel kernel-Gives udc udc-Dequeues 0 0 busy_core
      (unfold objects in refl) (unfold objects in refl)

waiting-Addressed : Addressed waiting
waiting-Addressed = record { distinct = (tt, tt); before = (omega arith, tt) }

driver_endpoints-Stacks_example :
    (find_driver_endpoint kernel bulk_in waiting
      ≡ some (top (stack bulk_in waiting.eplist), waiting))
    × Ok (Adds kernel bulk_in waiting bulk_desc) (add_driver_endpoint kernel bulk_desc waiting)
    × Ok (Takes kernel bulk_in waiting bulk_desc) (disable_endpoint kernel bulk_desc waiting)
driver_endpoints-Stacks_example =
    driver_endpoints-Stacks kernel bulk_in kernel-Gives waiting bulk_desc waiting-Addressed

-- A socket from which one byte is read at a time.
abbrev trickle : Net Bytes
trickle = record socket {
  sock_recvmsg = λ s len. (s, received (7 ∷ []) (record { port = 0; ip = 0 }));
}

bytes_of : Received → Bytes
bytes_of (received bytes from) = bytes
bytes_of (failed n) = []

trickle-Progresses : Progresses trickle
unfolding bytes_of
trickle-Progresses = record {
  present = λ s. refl;
  gives = λ s s' len bytes from e one.
      let count : 1 ≡ length bytes = ap (λ r. length (bytes_of r.1)) e in
      (omega (arith, count), omega (arith, count, one));
}

udp_recv-Returned_example : Returned (udp_recv trickle 7 idle data_msg)
udp_recv-Returned_example =
    udp_recv-Returned trickle trickle-Progresses 7 idle data_msg (omega arith) (omega arith)
      (omega arith) (omega arith)
