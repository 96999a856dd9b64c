-- ===== src/Driver/Running.antt =====
-- The driver from ubq_driver_init on, as devices come and go, messages come from userland and
-- transfers are done, in any order.
use usbq_core.Action.{Act, Ok, Ok-known, Ok-result, ret, ▷-Ok, ◌▷◌}
use usbq_core.Driver.Dispatch.{driver_disconnect, driver_recv_userland, recv, ubq_enable_device}
use usbq_core.Driver.Finishing.{recv-V}
use usbq_core.Driver.Freeing.{with_urb_result}
use usbq_core.Driver.Module.{open_driver, ubq_driver_init}
use usbq_core.Driver.Probe.{driver_probe}
use usbq_core.Driver.Serving.{
  IsAccepted, driver_disconnect-V, driver_probe-V, driver_recv_userland-V, ubq_enable_device-V,
}
use usbq_core.Driver.Sound.{Grew-IsWatched, IsSteady, IsWatched}
use usbq_core.Driver.State.{DriverEndpoint, DriverRequest, DriverState}
use usbq_core.Driver.Switching.{Configures}
use usbq_core.Endpoint.{Kernel}
use usbq_core.Gadget.State.{run}
use usbq_core.Identity.{Device}
use usbq_core.Identity.Built.{IsDevice}
use usbq_core.Msg.{Msg}
use usbq_core.Part.Accounts.{Gives, world-Grew}
use usbq_core.Part.Cleanup.{objects}
use usbq_core.Prelude.{
  Bool-cases, IsIn, [], arith, inl, inr, is_nonzero, none, refl, some, ℕ, ℤ, ◌≡◌,
}

-- A device that was plugged in or unplugged, a message of userland, or a request of an endpoint
-- that is done.
pub data DriverEvent : Type 0 where
  plug : Device → DriverEvent
  unplug : DriverEvent
  from_userland : Msg → DriverEvent
  transfer_done : DriverEndpoint → DriverRequest → ℤ → ℕ → DriverEvent

-- What can happen: a device whose descriptors have the sizes that they should, a message that
-- userland may send, or the completion of a request that waits.
abbrev pub CanHappen : {W : Type 0} → Kernel W → DriverState W → DriverEvent → Type 0
CanHappen k s (plug dev) = IsDevice dev
CanHappen k s unplug = Unit {0}
CanHappen k s (from_userland msg) = IsAccepted k msg
CanHappen k s (transfer_done ep req status actual) = IsIn ep s.eplist × IsIn req ep.reqlist

module _ {W : Type 0} (k : Kernel W) where
  -- The handler that an event calls.
  unfoldable pub handle_event : DriverEvent → Act (DriverState W) (Unit {0})
  handle_event (plug dev) = driver_probe k dev ▷ λ _. ret tt
  handle_event unplug = driver_disconnect k
  handle_event (from_userland msg) = driver_recv_userland k msg ▷ λ _. ret tt
  handle_event (transfer_done ep req status actual) = recv k ep (with_urb_result status actual req)

  -- The states that a driver comes to.
  pub data ComesTo (s : DriverState W) : DriverState W → Type 0 where
    begins : ComesTo s s
    then_after :
        {u t : DriverState W} (e : DriverEvent)
        → ComesTo s u
        → CanHappen k u e
        → handle_event e u ≡ some (tt, t)
        → ComesTo s t

module _ {W : Type 0} (k : Kernel W) (gives : Gives k) (configures : Configures k) (n : ℕ) where
  handle_event-IsWatched :
      (e : DriverEvent) (s : DriverState W)
      → IsWatched n none s
      → CanHappen k s e
      → Ok (λ _ s'. IsWatched n none s') (handle_event k e s)
  unfolding handle_event
  handle_event-IsWatched (plug dev) s v d =
      ▷-Ok (λ _ s'. IsWatched n none s') _ (driver_probe k dev) (λ _. ret (tt {0})) s refl
        (driver_probe-V k gives n dev s d v) (λ _ s' v'. v')
  handle_event-IsWatched unplug s v _ = driver_disconnect-V k gives n s v
  handle_event-IsWatched (from_userland msg) s v a =
      ▷-Ok (λ _ s'. IsWatched n none s') _ (driver_recv_userland k msg) (λ _. ret (tt {0})) s refl
        (driver_recv_userland-V k gives configures n msg s v a) (λ _ s' v'. v')
  handle_event-IsWatched (transfer_done ep req status actual) s v (m, m') =
      recv-V k gives configures n ep req status actual s v m m'

  ComesTo-IsWatched :
      {s t : DriverState W} → IsWatched n none s → ComesTo k s t → IsWatched n none t
  ComesTo-IsWatched v begins = v
  ComesTo-IsWatched v (then_after e r c run) =
      Ok-known (λ _ s'. IsWatched n none s') _ tt _ run
        (handle_event-IsWatched e _ (ComesTo-IsWatched v r) c)

-- What a driver starts with: the endpoints of the devices that usb_register found, and whatever the
-- kernel has allocated.
module _ {W : Type 0} (k : Kernel W) (gives : Gives k) (configures : Configures k)
    (s : DriverState W) where
  -- The driver before any device.
  abbrev bare : W → DriverState W
  bare w = record s { own = record { init = 0 }; eplist = []; heap = record s.heap { world = w } }

  bare-IsWatched : (w : W) → IsWatched s.heap.live none (bare w)
  unfolding objects
  bare-IsWatched w = record {
    steady = record {
      addressed = record { distinct = tt; before = tt };
      linked = tt;
      live_le = omega arith;
    };
    watched = tt;
  }

  begun-IsWatched : Ok (λ _ s'. IsWatched s.heap.live none s') (ubq_driver_init k s)
  unfolding ubq_driver_init open_driver
  begun-IsWatched = elim (Bool-cases ((k.com_init s.heap.world).0)) [
    | inr e ↦ rw (e, ubq_driver_init) (bare-IsWatched _)
    | inl e ↦
        let made : DriverState W = bare ((k.com_init s.heap.world).1) in
        rw (e, ubq_driver_init)
          (▷-Ok (λ _ s'. IsWatched s.heap.live none s') _ (ubq_enable_device k) _ made refl
            (ubq_enable_device-V k gives configures s.heap.live made (bare-IsWatched _))
            (λ err s' v. elim (Bool-cases (is_nonzero err)) [
              | inl bad ↦ rw bad (Grew-IsWatched s.heap.live none s' _ v 0 (world-Grew _ _))
              | inr good ↦ rw good v
            ]))
  ]

-- The invariant after whatever events have come.
pub driver_come-IsWatched :
    {W : Type 0} (k : Kernel W)
    → Gives k
    → Configures k
    → (s0 s t : DriverState W) (err : ℤ) → ubq_driver_init k s0 ≡ some (err, s)
    → ComesTo k s t
    → IsWatched s0.heap.live none t
driver_come-IsWatched k gives configures s0 s t err begun come =
    let n : ℕ = s0.heap.live in
    ComesTo-IsWatched k gives configures n
      (Ok-known (λ _ s'. IsWatched n none s') (ubq_driver_init k s0) err s begun
        (begun-IsWatched k gives configures s0))
      come

-- From ubq_driver_init on, and whatever events have come since, in any order: a device that is
-- plugged in or unplugged, a message of userland or the completion of a request that waits never
-- makes the driver leave its memory, read a descriptor that is not there or miss a message that it
-- needs. Afterwards the endpoints have distinct addresses, each of them and each of their requests
-- can be used by every event, and their objects are still allocated besides those that were there
-- before, so that nothing is freed twice. A device, also one that usb_register finds, has
-- descriptors of the sizes that they should. A message for an endpoint is an acknowledgement on an
-- endpoint other than a control endpoint, or fewer than 65536 bytes of data that lie in its memory
-- and, on a control endpoint, begin with a control request; a SET_INTERFACE is for an interface and
-- an alternate setting that are there. The interfaces of the kernel have no control endpoint, and
-- kmalloc gives as many bytes as it is asked for.
pub driver_event-IsSteady :
    {W : Type 0} (k : Kernel W)
    → Gives k
    → Configures k
    → (s0 s t : DriverState W) (err : ℤ) (e : DriverEvent) → ubq_driver_init k s0 ≡ some (err, s)
    → ComesTo k s t
    → CanHappen k t e
    → (t' : DriverState W) × (handle_event k e t ≡ some (tt, t')) × IsSteady s0.heap.live t'
driver_event-IsSteady k gives configures s0 s t err e begun come possible =
    let n : ℕ = s0.heap.live in
    let (_, t', run, v) =
      Ok-result (λ _ s'. IsWatched n none s') (handle_event k e t)
        (handle_event-IsWatched k gives configures n e t
          (driver_come-IsWatched k gives configures s0 s t err begun come) possible) in
    (t', run, v.steady)
