-- ===== src/Driver/Probe.antt =====
-- driver_probe of driver.c: a device was plugged in.
use usbq_core.Action.{Act, Ok, lift, ret, ▷-Ok, ◌▷◌}
use usbq_core.Driver.Callbacks.{ep_driver_send_userland}
use usbq_core.Driver.State.{DriverEndpoint, DriverState, add_driver_ep0_endpoint, set_init}
use usbq_core.Endpoint.{Kernel, memory, release, send_userland}
use usbq_core.Identity.{Device}
use usbq_core.Identity.Build.{build_init_pkt, packet_size}
use usbq_core.Identity.Built.{IsDevice, build_init_pkt-IsPacket}
use usbq_core.Msg.{Msg, management_type, msg_diff_size}
use usbq_core.Part.{free_msg, with_msg}
use usbq_core.Part.Accounts.{world-Grew, Gives, Grew}
use usbq_core.Part.Adding.{Added0, add_ep0_endpoint-Added0, ep0}
use usbq_core.Types.{dir_in, dir_out}
use usbq_core.Prelude.{
  Option, add32, ap, arith, enomem, error_or_zero, false, if◌then◌else◌, inl, inr, is_neg, none,
  pos, refl, some, true, ℕ, ℤ, ◌+◌, ◌==◌, ◌∙◌, ◌∷◌, ◌≡◌,
}

module _ {W : Type 0} (k : Kernel W) where
  -- The end of driver_probe, from build_init_pkt on.
  unfoldable pub announce_device : Option Msg → Act (DriverState W) ℤ
  announce_device none = ret enomem
  announce_device (some msg) =
      ep_driver_send_userland k msg ▷ λ err. free_msg k ▷ λ _. ret (error_or_zero err)

  unfoldable pub new_init_pkt : Device → Act (DriverState W) (Option Msg)
  new_init_pkt dev =
      with_msg k (add32 (add32 (packet_size dev) (msg_diff_size management_type)) 4)
        (λ kmalloc. build_init_pkt kmalloc dev)

  -- From the second endpoint on: the first one stays when it fails.
  unfoldable pub probe_out : Device → Option DriverEndpoint → Act (DriverState W) ℤ
  probe_out dev none = ret enomem
  probe_out dev (some epout) = new_init_pkt dev ▷ announce_device

  unfoldable pub probe_in : Device → Option DriverEndpoint → Act (DriverState W) ℤ
  probe_in dev none = ret enomem
  probe_in dev (some epin) = add_driver_ep0_endpoint k dir_out ▷ probe_out dev

  unfoldable pub driver_probe : Device → Act (DriverState W) ℤ
  driver_probe dev s =
      if s.own.init == 0
      then (add_driver_ep0_endpoint k dir_in ▷ probe_in dev) (set_init 1 s)
      else some (pos 0, s)

-- What driver_probe leaves: two endpoints and the packet sent, or an error.
pub record Probed {W : Type 0} (s s' : DriverState W) : Type 0 where
  pub epin : DriverEndpoint
  pub epout : DriverEndpoint
  pub eplist_eq : s'.eplist ≡ epout ∷ (epin ∷ s.eplist)
  pub in_eq : epin.epid ≡ ep0 dir_in
  pub out_eq : epout.epid ≡ ep0 dir_out
  pub live_eq : s'.heap.live ≡ 4 + s.heap.live

module _ {W : Type 0} (k : Kernel W) (gives : Gives k) where
  add_driver_ep0_endpoint-Added0 :
      (dir : ℕ) (s : DriverState W) → Ok (Added0 s dir) (add_driver_ep0_endpoint k dir s)
  unfolding add_driver_ep0_endpoint
  add_driver_ep0_endpoint-Added0 dir s = add_ep0_endpoint-Added0 k gives tt 64 dir s

  module _ (dev : Device) (d : IsDevice dev) where
    -- The message of a device is one object more.
    abbrev pub Built : DriverState W → Option Msg → DriverState W → Type 0
    Built s none s' = Grew s 0 s'
    Built s (some m) s' = Grew s 1 s'

    pub new_init_pkt-Built : (s : DriverState W) → Ok (Built s) (new_init_pkt k dev s)
    unfolding new_init_pkt with_msg
    new_init_pkt-Built s =
        elim (build_init_pkt-IsPacket dev d (memory k s.heap.world) (gives s.heap.world)) [
          | inl (nothing, e) ↦ rw (e, Ok, with_msg, lift) (world-Grew _ _)
          | inr (m, e, packet) ↦
              rw (e, Ok, with_msg, lift)
                (record {
                  own_eq = refl;
                  same = refl;
                  live_eq = omega arith;
                  next_le = omega arith;
                })
        ]

    abbrev Result : DriverState W → ℤ → DriverState W → Type 0
    Result s err s' = (s'.own.init ≡ 1) × (is_neg err ≡ false → Probed s s')

    announced :
        (s0 : DriverState W) (m : Option Msg) (s s' : DriverState W)
        → s.own.init ≡ 1
        → Probed s0 s
        → Built s m s'
        → Ok (Result s0) (announce_device k m s')
    unfolding announce_device ep_driver_send_userland free_msg release send_userland
    announced s0 none s s' i p g = (ap (λ o. o.init) g.own_eq ∙ i, λ h. cc)
    announced s0 (some m) s s' i p g = (
      ap (λ o. o.init) g.own_eq ∙ i,
      λ h. record {
        epin = p.epin;
        epout = p.epout;
        eplist_eq = g.same ∙ p.eplist_eq;
        in_eq = p.in_eq;
        out_eq = p.out_eq;
        live_eq = omega (arith, g.live_eq, p.live_eq);
      },
    )

    probed_out :
        (s0 : DriverState W) (epin : DriverEndpoint) (s : DriverState W) (o : Option DriverEndpoint)
        (s' : DriverState W)
        → s.own.init ≡ 1
        → s.eplist ≡ epin ∷ s0.eplist
        → epin.epid ≡ ep0 dir_in
        → s.heap.live ≡ 2 + s0.heap.live
        → Added0 s dir_out o s'
        → Ok (Result s0) (probe_out k dev o s')
    unfolding probe_out
    probed_out s0 epin s none s' i list in_eq live g = (ap (λ o. o.init) g.own_eq ∙ i, λ h. cc)
    probed_out s0 epin s (some epout) s' i list in_eq live (list', out_eq, _, _, live', same) =
        ▷-Ok (Result s0) _ (new_init_pkt k dev) (announce_device k) s' refl (new_init_pkt-Built s')
          (λ m s'' b.
            announced s0 m s' s'' (ap (λ o. o.init) same ∙ i)
              (record {
                epin = epin;
                epout = epout;
                eplist_eq = list' ∙ ap (λ l. epout ∷ l) list;
                in_eq = in_eq;
                out_eq = out_eq;
                live_eq = omega (arith, live, live');
              })
              b)

    probed_in :
        (s0 : DriverState W) (o : Option DriverEndpoint) (s s' : DriverState W)
        → s.eplist ≡ s0.eplist
        → s.heap.live ≡ s0.heap.live
        → s.own.init ≡ 1
        → Added0 s dir_in o s'
        → Ok (Result s0) (probe_in k dev o s')
    unfolding probe_in
    probed_in s0 none s s' list live i g = (ap (λ o. o.init) g.own_eq ∙ i, λ h. cc)
    probed_in s0 (some epin) s s' list live i (list', in_eq, _, _, live', same) =
        ▷-Ok (Result s0) _ (add_driver_ep0_endpoint k dir_out) (probe_out k dev) s' refl
          (add_driver_ep0_endpoint-Added0 dir_out s')
          (λ o s'' a.
            probed_out s0 epin s' o s'' (ap (λ o. o.init) same ∙ i)
              (list' ∙ ap (λ l. epin ∷ l) list) in_eq (omega (arith, live, live')) a)

    -- If kmalloc gives as many bytes as it is asked for, driver_probe, for a device whose
    -- descriptors have the sizes that they should and a driver that is not initialised, never
    -- leaves the memory and leaves the driver initialised, also when it fails. Unless its result is
    -- negative, the two directions of control endpoint 0 stand at the head of the list, and two
    -- objects for each are all that is allocated more: the packet is freed.
    pub driver_probe-Probed :
        (s : DriverState W)
        → s.own.init ≡ 0
        → Ok
            (λ err s'. (s'.own.init ≡ 1) × (is_neg err ≡ false → Probed s s'))
            (driver_probe k dev s)
    unfolding driver_probe
    driver_probe-Probed s i =
        let fresh : (s.own.init == 0) ≡ true = ground (arith, i) in
        rw (fresh, driver_probe)
          (▷-Ok (Result s) _ (add_driver_ep0_endpoint k dir_in) (probe_in k dev) (set_init 1 s) refl
            (add_driver_ep0_endpoint-Added0 dir_in (set_init 1 s))
            (λ o s' a. probed_in s o (set_init 1 s) s' refl refl refl a))
