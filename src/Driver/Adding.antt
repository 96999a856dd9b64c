-- ===== src/Driver/Adding.antt =====
-- add_driver_endpoint of driver.c.
use usbq_core.Action.{Ok}
use usbq_core.Driver.State.{DriverState, add_driver_endpoint}
use usbq_core.Endpoint.{Kernel}
use usbq_core.Part.Accounts.{Gives}
use usbq_core.Part.Adding.{Added, add_endpoint-Added}
use usbq_core.Prelude.{Bytes}

-- If kmalloc gives as many bytes as it is asked for, add_driver_endpoint puts at the head of the
-- list an endpoint with the identity and a copy of the descriptor and no request, for three
-- objects; or it gives NULL and leaves the list, with at most one object (the copy of the
-- descriptor) that is not freed.
pub add_driver_endpoint-Added :
    {W : Type 0} (k : Kernel W) (gives : Gives k) (d : Bytes) (s : DriverState W)
    → Ok (Added tt s d) (add_driver_endpoint k d s)
unfolding add_driver_endpoint
add_driver_endpoint-Added k gives d s = add_endpoint-Added k gives tt 64 d s
