-- ===== src/Gadget/Running.antt =====
-- The gadget from ubq_gadget_init on, as events come from userland, from the host and from the
-- gadget layer of the kernel, in any order.
use usbq_core.Action.{Act, Ok, Ok-known, Ok-result, ret, ▷-Ok, ◌▷◌}
use usbq_core.Endpoint.{Kernel}
use usbq_core.Gadget.{GadgetEndpoint, GadgetRequest, GadgetState, Udc}
use usbq_core.Gadget.Callbacks.{gadget_recv_usb}
use usbq_core.Gadget.Cleanup.{Dequeues}
use usbq_core.Gadget.Dispatch.{gadget_recv_userland, ubq_gadget_init}
use usbq_core.Gadget.Finishing.{gadget_recv_usb-IsSound, with_result}
use usbq_core.Gadget.Hosting.{ubq_setup-IsSound}
use usbq_core.Gadget.Replacing.{Accepted, gadget_recv_userland-IsSound}
use usbq_core.Gadget.Setup.{ubq_setup}
use usbq_core.Gadget.Sound.{IsSound}
use usbq_core.Gadget.State.{run}
use usbq_core.Gadget.Switching.{Narrow}
use usbq_core.Gadget.Usable.{IsUsable}
use usbq_core.Identity.RoundTrip.{IsIdentity}
use usbq_core.Msg.{Msg}
use usbq_core.Part.Accounts.{Gives}
use usbq_core.Part.Cleanup.{objects}
use usbq_core.Types.{w_length}
use usbq_core.Prelude.{
  Bytes, Every, IsIn, arith, length, refl, some, subst, sym, take, ℕ, ℤ, ◌<◌, ◌≡◌,
}

-- A message of userland, a control request of the host, or a request of an endpoint that is done.
pub data Event : Type 0 where
  message : Msg → Event
  setup : Bytes → Event
  completion : GadgetEndpoint → GadgetRequest → ℤ → ℕ → Event

-- What can happen: a message that userland may send, eight bytes whose wLength is a word of sixteen
-- bits, or the completion of a request that waits.
abbrev pub Possible : {W : Type 0} → GadgetState W → Event → Type 0
Possible s (message msg) = Accepted msg
Possible s (setup c) = (length c ≡ 8) × (w_length c < 65536)
Possible s (completion ep req status actual) = IsIn ep s.eplist × IsIn req ep.reqlist

module _ {W : Type 0} (k : Kernel W) (g : Udc W) where
  -- The handler that an event calls.
  unfoldable pub handle : Event → Act (GadgetState W) (Unit {0})
  handle (message msg) = gadget_recv_userland k g msg ▷ λ _. ret tt
  handle (setup c) = ubq_setup k g c ▷ λ _. ret tt
  handle (completion ep req status actual) = gadget_recv_usb k g ep (with_result status actual req)

  -- The states that a gadget comes to.
  pub data Reaches (s : GadgetState W) : GadgetState W → Type 0 where
    start : Reaches s s
    then_event :
        {u t : GadgetState W} (e : Event)
        → Reaches s u
        → Possible u e
        → handle e u ≡ some (tt, t)
        → Reaches s t

module _ {W : Type 0} (k : Kernel W) (gives : Gives k) (g : Udc W) (narrow : Narrow g)
    (dequeues : Dequeues g) (n : ℕ) where
  handle-IsSound :
      (e : Event) (s : GadgetState W)
      → IsSound n s
      → Possible s e
      → Ok (λ _ s'. IsSound n s') (handle k g e s)
  unfolding handle
  handle-IsSound (message msg) s v a =
      ▷-Ok (λ _ s'. IsSound n s') _ (gadget_recv_userland k g msg) (λ _. ret (tt {0})) s refl
        (gadget_recv_userland-IsSound k gives g narrow dequeues n s msg v a) (λ _ s' v'. v')
  handle-IsSound (setup c) s v (eight, small) =
      ▷-Ok (λ _ s'. IsSound n s') _ (ubq_setup k g c) (λ _. ret (tt {0})) s refl
        (ubq_setup-IsSound k gives g narrow dequeues n c eight small s v) (λ _ s' v'. v')
  handle-IsSound (completion ep req status actual) s v (m, m') =
      gadget_recv_usb-IsSound k gives g n ep req status actual s v m m'

  Reaches-IsSound : {s t : GadgetState W} → IsSound n s → Reaches k g s t → IsSound n t
  Reaches-IsSound v start = v
  Reaches-IsSound v (then_event e r p run) =
      Ok-known (λ _ s'. IsSound n s') _ tt _ run (handle-IsSound e _ (Reaches-IsSound v r) p)

-- What a gadget starts with: no interfaces, and whatever the kernel has allocated.
started-IsSound :
    {W : Type 0} (k : Kernel W) (g : Udc W) (s : GadgetState W)
    → IsIdentity s.own.identity
    → s.own.identity.nb_int ≡ 0
    → Ok (λ _ s'. IsSound s.heap.live s') (ubq_gadget_init k g s)
unfolding ubq_gadget_init objects
started-IsSound k g s whole none_yet = record {
  addressed = record { distinct = tt; before = tt };
  served = tt;
  live_le = omega arith;
  table = record {
    whole = record { count = whole.count; sized = whole.sized };
    count = omega (arith, none_yet);
    usable = subst (λ m. Every IsUsable (take m s.own.identity.interfaces)) (sym none_yet) tt;
  };
}

-- From ubq_gadget_init on, with an identity whose arrays have the sizes that they are declared with
-- and that has no interfaces yet, and whatever events have come since, in any order: a message of
-- userland, a control request of the host or the completion of a request that waits never makes the
-- gadget leave its memory, read a descriptor that is not there or miss a message that it needs.
-- Afterwards the endpoints have distinct addresses, each of them and each of their requests can be
-- used by every event, the identity can be used as well, and their objects are still allocated
-- besides those that were there before, so that nothing is freed twice. A message of userland is a
-- RESET, one of no known kind, one for an endpoint, or the packet that build_init_pkt makes for a
-- device with the descriptors of USB 2.0, no more than 64 altsettings and no more than 8 endpoints
-- in each, in a memory that goes on for two bytes behind it; other NEW_DEVICE messages are left
-- out. A message for an endpoint acknowledges a control request or has data, which on a control or
-- isochronous endpoint have at least eight bytes. No endpoint of the device is a control endpoint
-- or an isochronous one that the host sends on, and none has a packet size beyond sixteen bits.
-- What stands for wLength in the data of a message and in a request of the host, which has eight
-- bytes, is a word of sixteen bits. kmalloc gives as many bytes as it is asked for, every queued
-- request can be dequeued, and the limits of the usb_eps fit their sixteen bits.
pub gadget_event-IsSound :
    {W : Type 0} (k : Kernel W) (g : Udc W)
    → Gives k
    → Narrow g
    → Dequeues g
    → (s0 s t : GadgetState W) (err : ℤ) (e : Event) → IsIdentity s0.own.identity
    → s0.own.identity.nb_int ≡ 0
    → ubq_gadget_init k g s0 ≡ some (err, s)
    → Reaches k g s t
    → Possible t e
    → (t' : GadgetState W) × (handle k g e t ≡ some (tt, t')) × IsSound s0.heap.live t'
gadget_event-IsSound k g gives narrow dequeues s0 s t err e whole none_yet started reached
      possible =
    let n : ℕ = s0.heap.live in
    let v : IsSound n s =
      Ok-known (λ _ s'. IsSound n s') (ubq_gadget_init k g s0) err s started
        (started-IsSound k g s0 whole none_yet) in
    let (_, t', run, v') =
      Ok-result (λ _ s'. IsSound n s') (handle k g e t)
        (handle-IsSound k gives g narrow dequeues n e t
          (Reaches-IsSound k gives g narrow dequeues n v reached) possible) in
    (t', run, v')
