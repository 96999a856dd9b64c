-- ===== src/Driver/Starting.antt =====
-- ubq_driver_init: what the driver has when usb_register has answered.
use usbq_core.Action.{Ok, Ok-map, ret, ▷-Ok, ◌▷◌}
use usbq_core.Driver.Dispatch.{probe_interfaces, probe_unbound, ubq_enable_device}
use usbq_core.Driver.Module.{open_driver, ubq_driver_init}
use usbq_core.Driver.Probe.{driver_probe, driver_probe-Probed}
use usbq_core.Driver.State.{DriverState}
use usbq_core.Driver.Switching.{Configures}
use usbq_core.Endpoint.{Kernel}
use usbq_core.Identity.{Device}
use usbq_core.Identity.Built.{IsDevice}
use usbq_core.Part.Accounts.{Gives}
use usbq_core.Prelude.{
  Bool-cases, Every, List, [], arith, enomem, false, inl, inr, is_nonzero, negsuc, pos, refl, suc,
  true, zero, ℤ, ◌==◌, ◌∷◌, ◌≡◌, ◌≢◌, ◌⊎◌,
}

-- What usb_register answers to the driver, once it has a com_t.
abbrev pub registered_from : {W : Type 0} → Kernel W → DriverState W → ℤ × W
registered_from k s = k.usb_register ((k.com_init s.heap.world).1)

-- The driver has a com_t and is registered: it has taken a device that the kernel had without
-- driver, or there was none, and it has no endpoints.
abbrev pub Started : {W : Type 0} → Kernel W → DriverState W → DriverState W → Type 0
Started k s s' =
    ((k.com_init s.heap.world).0 ≡ true)
    × ((registered_from k s).0 ≡ pos 0)
    × ((s'.own.init ≡ 1) × (k.unbound ((registered_from k s).1) ≢ [])
        ⊎ (s'.own.init ≡ 0)
          × (s'.eplist ≡ [])
          × (s'.heap.world ≡ (registered_from k s).1)
          × (k.unbound ((registered_from k s).1) ≡ []))

-- The driver has no com_t and no endpoints: none could be made, or usb_register answered with
-- `err` and it was closed again.
abbrev pub Closed : {W : Type 0} → Kernel W → DriverState W → ℤ → DriverState W → Type 0
Closed k s err s' =
    (s'.own.init ≡ 0)
    × (s'.eplist ≡ [])
    × (((k.com_init s.heap.world).0 ≡ false) × (err ≡ enomem)
        ⊎ ((k.com_init s.heap.world).0 ≡ true)
          × (is_nonzero err ≡ true)
          × ((registered_from k s).0 ≡ err)
          × (s'.heap.world ≡ k.com_close ((registered_from k s).1)))

-- ubq_driver_init has returned `err`.
abbrev pub Driven : {W : Type 0} → Kernel W → DriverState W → ℤ → DriverState W → Type 0
Driven k s err s' = (err ≡ pos 0) × Started k s s' ⊎ Closed k s err s'

module _ {W : Type 0} (k : Kernel W) (gives : Gives k) (configures : Configures k) where
  -- A driver that has a device keeps it.
  probe_interfaces-init :
      (devs : List Device) (s : DriverState W)
      → s.own.init ≡ 1
      → Ok (λ _ s'. s'.own.init ≡ 1) (probe_interfaces k devs s)
  unfolding probe_interfaces driver_probe
  probe_interfaces-init [] s i = i
  probe_interfaces-init (dev ∷ devs) s i =
      let taken : (s.own.init == 0) ≡ false = ground (arith, i) in
      rw (taken, Ok, ◌▷◌) (probe_interfaces-init devs s i)

  -- A driver without a device takes the first.
  probe_interfaces-taken :
      (devs : List Device) (s : DriverState W)
      → Every IsDevice devs
      → s.own.init ≡ 0
      → s.eplist ≡ []
      → Ok
          (λ _ s'.
            (s'.own.init ≡ 1) × (devs ≢ [])
            ⊎ (s'.own.init ≡ 0) × (s'.eplist ≡ []) × (s'.heap.world ≡ s.heap.world) × (devs ≡ []))
          (probe_interfaces k devs s)
  unfolding probe_interfaces
  probe_interfaces-taken [] s d i nil = inr (i, nil, refl, refl)
  probe_interfaces-taken (dev ∷ devs) s (d, ds) i nil =
      ▷-Ok _ _ (driver_probe k dev) (λ _. probe_interfaces k devs) s refl
        (driver_probe-Probed k gives dev d s i)
        (λ err s' (on, _).
          Ok-map _ _ (probe_interfaces k devs s') (λ _ s'' on'. inl (on', λ e. cc))
            (probe_interfaces-init devs s' on))

  abbrev Enabled : ℤ → W → ℤ → DriverState W → Type 0
  Enabled answer w err s' =
      (err ≡ answer)
      × ((s'.own.init ≡ 1) × (k.unbound w ≢ [])
          ⊎ (s'.own.init ≡ 0) × (s'.eplist ≡ []) × (s'.heap.world ≡ w) × (k.unbound w ≡ []))

  pub ubq_driver_init-Driven : (s : DriverState W) → Ok (Driven k s) (ubq_driver_init k s)
  unfolding ubq_driver_init open_driver ubq_enable_device probe_unbound
  ubq_driver_init-Driven s = elim (Bool-cases ((k.com_init s.heap.world).0)) [
    | inr e ↦ rw (e, Ok, open_driver) (inr (refl, refl, inl (e, refl)))
    | inl e ↦
        let answer : ℤ × W = registered_from k s in
        elim (Bool-cases (is_nonzero answer.0)) [
          | inl f ↦ rw (e, Ok, open_driver, f, f) (inr (refl, refl, inr (e, f, refl, refl)))
          | inr f ↦
              let made : DriverState W = record s {
                own = record { init = 0 };
                eplist = [];
                heap = record s.heap { world = answer.1 };
              } in
              rw (e, Ok, open_driver, f)
                (▷-Ok (Driven k s) _ (probe_unbound k ▷ λ _. ret answer.0) _ made refl
                  (▷-Ok (Enabled answer.0 answer.1) _ (probe_unbound k) _ made refl
                    (probe_interfaces-taken (k.unbound answer.1) made ((configures answer.1).1) refl
                      refl)
                    (λ _ s' taken. (refl, taken)))
                  (λ err s' (same, taken).
                    rw (same, f) (inl (refl, (e, zero_answer answer.0 f, taken)))))
        ]
  ]
    where
      zero_answer : (err : ℤ) → is_nonzero err ≡ false → err ≡ pos 0
      zero_answer (pos zero) f = refl
      zero_answer (pos (suc n)) f = cc
      zero_answer (negsuc n) f = cc
