-- ===== src/Core.antt =====
-- core.c: the two parts as one module.
pub mod Lifetime
use usbq_core.Action.{Act, ret, ◌▷◌}
use usbq_core.Driver.Module.{ubq_driver_exit, ubq_driver_init}
use usbq_core.Driver.State.{DriverState}
use usbq_core.Endpoint.{Kernel}
use usbq_core.Gadget.{GadgetState, Udc}
use usbq_core.Gadget.Dispatch.{ubq_gadget_exit, ubq_gadget_init}
use usbq_core.Prelude.{if◌then◌else◌, is_neg, none, some, ℤ, ◌>>=◌, ◌>>◌}

-- The states of both parts, each with what it sees of the kernel.
pub record CoreState (W : Type 0) : Type 0 where
  pub gadget : GadgetState W
  pub driver : DriverState W

module _ {W : Type 0} (k : Kernel W) (g : Udc W) where
  -- An action of one of the parts.
  abbrev pub on_gadget : {A : Type 0} → Act (GadgetState W) A → Act (CoreState W) A
  on_gadget m s = elim (m s.gadget) [
    | none ↦ none
    | some (a, s') ↦ some (a, record s { gadget = s' })
  ]

  abbrev pub on_driver : {A : Type 0} → Act (DriverState W) A → Act (CoreState W) A
  on_driver m s = elim (m s.driver) [
    | none ↦ none
    | some (a, s') ↦ some (a, record s { driver = s' })
  ]

  unfoldable pub ubq_core_init : Act (CoreState W) ℤ
  ubq_core_init = on_gadget (ubq_gadget_init k g) ▷ λ retval.
      if is_neg retval
      then ret retval
      else on_driver (ubq_driver_init k) ▷ λ retval.
          if is_neg retval then on_gadget (ubq_gadget_exit k g) ▷ (λ _. ret retval) else ret retval

  unfoldable pub ubq_core_exit : Act (CoreState W) (Unit {0})
  ubq_core_exit = on_gadget (ubq_gadget_exit k g) ▷ λ _. on_driver (ubq_driver_exit k) ▷ λ _. ret tt
