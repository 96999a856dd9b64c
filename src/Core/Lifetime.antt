-- ===== src/Core/Lifetime.antt =====
-- The two parts as they come and go together: ubq_core_init and ubq_core_exit of core.c.
use usbq_core.Action.{Act, Ok, ret, ▷-Ok, ◌▷◌}
use usbq_core.Core.{CoreState, on_driver, on_gadget, ubq_core_exit}
use usbq_core.Driver.Dispatch.{ubq_disable_device}
use usbq_core.Driver.Dispatching.{ubq_disable_device-empty}
use usbq_core.Driver.Module.{ubq_driver_exit}
use usbq_core.Driver.Starting.{Closed, Started}
use usbq_core.Driver.State.{DriverState}
use usbq_core.Endpoint.{Kernel}
use usbq_core.Gadget.{GadgetState, Udc}
use usbq_core.Gadget.Cleanup.{Dequeues, clean_gadget_endpoints-Accounted}
use usbq_core.Gadget.Dispatch.{ubq_gadget_exit, ubq_unregister}
use usbq_core.Gadget.State.{clean_gadget_endpoints, run}
use usbq_core.Part.Accounts.{Gives}
use usbq_core.Part.Cleanup.{objects}
use usbq_core.Prelude.{
  Bool-cases, Option, [], ap, false, inl, inr, is_neg, none, pos, refl, some, subst, sym, true, ℕ,
  ℤ, ◌+◌, ◌==◌, ◌∙◌, ◌≡◌, ◌⊎◌,
}

-- The gadget without a device.
abbrev pub Empty : {W : Type 0} → GadgetState W → Type 0
Empty s = (s.own.registered ≡ 0) × (s.eplist ≡ [])

-- The gadget without a device, as com_init left it with a com_t.
abbrev pub Waits : {W : Type 0} → Udc W → GadgetState W → GadgetState W → Type 0
Waits g s s' =
    ((g.com_init s.heap.world).0 ≡ true) × (s'.heap.world ≡ (g.com_init s.heap.world).1) × Empty s'

-- Both parts have a com_t; or only the gadget has, since the answer of usb_register is positive; or
-- it is an error, and neither has one.
abbrev pub Opened : {W : Type 0} → Kernel W → Udc W → CoreState W → ℤ → CoreState W → Type 0
Opened {W = W} k g s err s' =
    ((err ≡ pos 0) × Waits g s.gadget s'.gadget × Started k s.driver s'.driver)
    ⊎ ((is_neg err ≡ false) × Waits g s.gadget s'.gadget × Closed k s.driver err s'.driver)
    ⊎ ((is_neg err ≡ true)
        × (((g.com_init s.gadget.heap.world).0 ≡ false) × (s'.driver ≡ s.driver)
            ⊎ (s'.gadget.heap.world ≡ g.com_close ((g.com_init s.gadget.heap.world).1))
              × Closed k s.driver err s'.driver))

module _ {W : Type 0} (k : Kernel W) (g : Udc W) where
  on_gadget-Ok :
      {A : Type 0} (P : A → GadgetState W → Type 0) (m : Act (GadgetState W) A) (s : CoreState W)
      (r : Option (A × GadgetState W))
      → m s.gadget ≡ r
      → Ok P r
      → Ok (λ a s'. P a s'.gadget × (s'.driver ≡ s.driver)) (on_gadget k g m s)
  on_gadget-Ok P m s none e p = absurd p
  on_gadget-Ok P m s (some (a, s')) e p = rw (e, on_gadget) (p, refl)

  on_driver-Ok :
      {A : Type 0} (P : A → DriverState W → Type 0) (m : Act (DriverState W) A) (s : CoreState W)
      (r : Option (A × DriverState W))
      → m s.driver ≡ r
      → Ok P r
      → Ok (λ a s'. P a s'.driver × (s'.gadget ≡ s.gadget)) (on_driver k g m s)
  on_driver-Ok P m s none e p = absurd p
  on_driver-Ok P m s (some (a, s')) e p = rw (e, on_driver) (p, refl)

module _ {W : Type 0} (k : Kernel W) (gives : Gives k) (g : Udc W) (dequeues : Dequeues g) where
  -- Neither part has an endpoint, and only what is not of endpoints is allocated.
  abbrev pub Cleaned : ℕ → ℕ → Unit {0} → CoreState W → Type 0
  Cleaned m n _ s' =
      (s'.gadget.eplist ≡ [])
      × (s'.gadget.heap.live ≡ m)
      × (s'.driver.eplist ≡ [])
      × (s'.driver.heap.live ≡ n)

  ubq_gadget_exit-cleaned :
      (n : ℕ) (s : GadgetState W)
      → s.heap.live ≡ objects s.eplist + n
      → Ok (λ _ s'. (s'.eplist ≡ []) × (s'.heap.live ≡ n)) (ubq_gadget_exit k g s)
  unfolding ubq_gadget_exit ubq_unregister
  ubq_gadget_exit-cleaned n s e = elim (Bool-cases (s.own.registered == 0)) [
    | inl off ↦
        rw (off, Ok, ◌▷◌)
          (▷-Ok _ _ (clean_gadget_endpoints k g) (λ _. run g.com_close) s refl
            (clean_gadget_endpoints-Accounted k g dequeues n s e)
            (λ _ s' (nil, live, _). (nil, live)))
    | inr on ↦
        rw (on, Ok, ◌▷◌)
          (▷-Ok _ _ (clean_gadget_endpoints k g) (λ _. run g.com_close) _ refl
            (clean_gadget_endpoints-Accounted k g dequeues n _ e)
            (λ _ s' (nil, live, _). (nil, live)))
  ]

  ubq_driver_exit-cleaned :
      (n : ℕ) (s : DriverState W)
      → s.heap.live ≡ objects s.eplist + n
      → Ok (λ _ s'. (s'.eplist ≡ []) × (s'.heap.live ≡ n)) (ubq_driver_exit k s)
  unfolding ubq_driver_exit
  ubq_driver_exit-cleaned n s e =
      ▷-Ok (λ _ s'. (s'.eplist ≡ []) × (s'.heap.live ≡ n)) _ (ubq_disable_device k) _ s refl
        (ubq_disable_device-empty k gives n s e) (λ _ s' (nil, live). (nil, live))

  -- If every queued request can be dequeued, kmalloc gives as many bytes as it is asked for, and
  -- `m` and `n` objects are allocated besides those of the endpoints of the gadget and of the
  -- driver, ubq_core_exit never leaves the memory, also when usb_deregister disconnects the
  -- interfaces that the driver has. It leaves no endpoint in either part, and leaves `m` and `n`
  -- objects allocated.
  pub ubq_core_exit-Cleaned :
      (m n : ℕ) (s : CoreState W)
      → s.gadget.heap.live ≡ objects s.gadget.eplist + m
      → s.driver.heap.live ≡ objects s.driver.eplist + n
      → Ok (Cleaned m n) (ubq_core_exit k g s)
  unfolding ubq_core_exit
  ubq_core_exit-Cleaned m n s e f =
      ▷-Ok (Cleaned m n) _ (on_gadget k g (ubq_gadget_exit k g))
        (λ _. on_driver k g (ubq_driver_exit k) ▷ λ _. ret tt) s refl
        (on_gadget-Ok k g _ (ubq_gadget_exit k g) s _ refl (ubq_gadget_exit-cleaned m s.gadget e))
        (λ _ s1 ((nil, live), same).
          let f' : s1.driver.heap.live ≡ objects s1.driver.eplist + n =
            subst (λ d. d.heap.live ≡ objects d.eplist + n) (sym same) f in
          ▷-Ok (Cleaned m n) _ (on_driver k g (ubq_driver_exit k)) (λ _. ret tt) s1 refl
            (on_driver-Ok k g _ (ubq_driver_exit k) s1 _ refl
              (ubq_driver_exit-cleaned n s1.driver f'))
            (λ _ s2 ((nil', live'), same').
              (ap (λ t. t.eplist) same' ∙ nil, ap (λ t. t.heap.live) same' ∙ live, nil', live')))
