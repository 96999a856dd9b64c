-- ===== src/Com/Calling.antt =====
-- The callback of com_recv of com.c, which a part gives to com_init: a handler on the state of the
-- part.
use usbq_core.Action.{Act, Ok, crash, ret, ▷-Ok, ◌▷◌}
use usbq_core.Com.{Com, com_recv}
use usbq_core.Com.Deliver.{Delivered, IsBuffer, com_recv-Delivered}
use usbq_core.Msg.{Msg}
use usbq_core.Msg.Check.{IsWellFormed}
use usbq_core.Msg.Copy.{Fits}
use usbq_core.Udp.{Net, Run, done}
use usbq_core.Udp.Recv.{Bounded}
use usbq_core.Prelude.{Option, none, refl, some, ℕ, ℤ, ◌≡◌}

module _ {S P : Type 0} (net : Net S) (cb_recv : Msg → Act P ℤ) where
  -- What com_recv does with the message that was received: its result is not looked at.
  abbrev pub call_back : Run (Com S × Option Msg) → Act P (Run (Com S))
  call_back (done (channel, none)) = ret (done channel)
  call_back (done (channel, some msg)) = cb_recv msg ▷ λ err. ret (done channel)
  call_back Run.fault = crash
  call_back Run.out_of_fuel = ret Run.out_of_fuel

  -- The whole of com_recv.
  unfoldable pub com_work : ℕ → Com S → Act P (Run (Com S))
  com_work fuel channel = call_back (com_recv net fuel channel)

-- The buffer serves for the next message, if a message came at all.
abbrev pub Served : {S : Type 0} (net : Net S) → Bounded net → Run (Com S) → Type 0
Served net bounded (done channel) = IsBuffer net bounded channel.msg
Served net bounded Run.fault = ⊥
Served net bounded Run.out_of_fuel = Unit {0}

module _ {S P : Type 0} (net : Net S) (bounded : Bounded net) (cb_recv : Msg → Act P ℤ)
    (Good : P → Type 0) (channel : Com S) (b : IsBuffer net bounded channel.msg) (fuel : ℕ) (s : P)
    (good : Good s) where
  -- A callback that serves every message that lies within its buffer serves what com_recv gives.
  pub com_work-Served :
      ((rest : Com S) (msg : Msg)
        → com_recv net fuel channel ≡ done (rest, some msg)
        → IsWellFormed msg
        → Fits msg
        → Ok (λ _ s'. Good s') (cb_recv msg s))
      → Ok (λ r s'. Served net bounded r × Good s') (com_work net cb_recv fuel channel s)
  unfolding com_work
  com_work-Served serves =
      go (com_recv net fuel channel) refl (com_recv-Delivered net bounded fuel channel b)
    where
      go :
          (r : Run (Com S × Option Msg))
          → com_recv net fuel channel ≡ r
          → Delivered net bounded r
          → Ok (λ r s'. Served net bounded r × Good s') (call_back net cb_recv r s)
      go (done (rest, none)) e kept = (kept, good)
      go (done (rest, some msg)) e (kept, formed, fits) =
          ▷-Ok (λ r s'. Served net bounded r × Good s') _ (cb_recv msg) (λ _. ret (done rest)) s
            refl (serves rest msg e formed fits) (λ _ s' good'. (kept, good'))
      go Run.fault e kept = kept
      go Run.out_of_fuel e kept = (tt, good)
