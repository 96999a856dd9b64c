-- ===== src/Gadget/Presenting.antt =====
-- callback_new_device of gadget.c: the packet of a device, from build_init_pkt of the driver on.
use usbq_core.Action.{Ok, ret, ▷-Ok, ◌▷◌}
use usbq_core.Endpoint.{Kernel}
use usbq_core.Gadget.{GadgetEndpoint, GadgetState, Udc}
use usbq_core.Gadget.Binding.{Binds, ubq_register-Registered}
use usbq_core.Gadget.Cleanup.{Dequeues, clean_gadget_endpoints-Accounted}
use usbq_core.Gadget.Dispatch.{
  callback_new_device, drop_device, gadget_recv_userland, gadget_recv_userland_management,
  read_identity, register_device, ubq_register, ubq_unregister,
}
use usbq_core.Identity.{Device, Identity}
use usbq_core.Identity.Build.{visited}
use usbq_core.Identity.Built.{IsPacket, altsettings}
use usbq_core.Identity.Interfaces.{Parsed}
use usbq_core.Identity.Parse.{parse_init_pkt}
use usbq_core.Identity.RoundTrip.{IsAnnounced, IsIdentity, behind_data, parse_init_pkt-IsRead}
use usbq_core.Msg.{Msg, is_management_msg, is_new_device_mng_msg, is_reset_mng_msg, is_usb_msg}
use usbq_core.Part.Accounts.{Gives}
use usbq_core.Part.Adding.{ep0}
use usbq_core.Part.Cleanup.{objects}
use usbq_core.Types.{dir_in, dir_out}
use usbq_core.Prelude.{
  Bool-cases, Bytes, [], ap, arith, error_or_zero, false, inl, inr, is_neg, length, negsuc, pos,
  refl, some, subst, sym, take, true, ℕ, ℤ, ◌+◌, ◌==◌, ◌∙◌, ◌∷◌, ◌≡◌, ◌≢◌, ◌≤◌, ◌⊎◌,
}

-- The identity that the packet of a device describes; `tail` is what its memory holds behind.
pub record Describes (dev : Device) (tail : Bytes) (identity : Identity) : Type 0 where
  pub speed_eq : identity.speed ≡ dev.speed
  pub device_eq : identity.device ≡ dev.descriptor
  pub conf_eq : identity.conf ≡ dev.config_desc
  pub nb_int_eq : identity.nb_int ≡ length (altsettings (visited dev))
  pub parsed :
      Parsed
        (altsettings (visited dev))
        tail
        (take (length (altsettings (visited dev))) identity.interfaces)

-- The identity is that of the device. Unless the result is negative, the gadget is registered, with
-- the two directions of control endpoint 0 as its only endpoints and `n` objects besides theirs;
-- otherwise its flag is what it was.
abbrev pub Presented :
    {W : Type 0} → Device → Bytes → GadgetState W → ℕ → ℤ → GadgetState W → Type 0
Presented dev tail s n err s' =
    Describes dev tail s'.own.identity
    × ((is_neg err ≡ true) × (s'.own.registered ≡ s.own.registered)
        ⊎ (err ≡ pos 0)
          × (s'.own.registered ≡ 1)
          × (epin epout : GadgetEndpoint) × (s'.eplist ≡ epout ∷ (epin ∷ []))
          × (epin.epid ≡ ep0 dir_in)
          × (epout.epid ≡ ep0 dir_out)
          × (s'.heap.live ≡ 4 + n))

module _ {W : Type 0} (k : Kernel W) (gives : Gives k) (g : Udc W) (binds : Binds g)
    (dequeues : Dequeues g) where
  drop_device-Ok :
      (n : ℕ) (s : GadgetState W)
      → s.heap.live ≡ objects s.eplist + n
      → (s.own.registered ≢ 0) ⊎ (s.eplist ≡ [])
      → Ok (λ _ s'. (s'.eplist ≡ []) × (s'.heap.live ≡ n) × (s'.own ≡ s.own)) (drop_device k g s)
  unfolding drop_device ubq_unregister objects
  drop_device-Ok n s e known = elim (Bool-cases (s.own.registered == 0)) [
    | inl off ↦
        rw (off, drop_device)
          (elim known [
            | inl on ↦ absurd (ground (arith, off, on))
            | inr nil ↦ (nil, omega (arith, e ∙ ap (λ l. objects l + n) nil), refl)
          ])
    | inr on ↦ rw (on, drop_device) (clean_gadget_endpoints-Accounted k g dequeues n _ e)
  ]

  register_device-Ok :
      (dev : Device) (tail : Bytes) (s0 s : GadgetState W) (n : ℕ)
      → Describes dev tail s.own.identity
      → s.own.registered ≡ s0.own.registered
      → s.eplist ≡ []
      → s.heap.live ≡ n
      → Ok (Presented dev tail s0 n) (register_device k g s)
  unfolding register_device
  register_device-Ok dev tail s0 s n d same nil live =
      ▷-Ok (Presented dev tail s0 n) _ (ubq_register k g) _ s refl
        (ubq_register-Registered k gives g binds s)
        (elim [
          | pos m ↦ λ s' (own, bound).
              let b = bound refl in
              (
                subst (λ o. Describes dev tail o.identity) (sym own) d,
                inr (
                  refl,
                  refl,
                  b.epin,
                  b.epout,
                  b.eplist_eq ∙ ap (λ l. b.epout ∷ (b.epin ∷ l)) nil,
                  b.in_eq,
                  b.out_eq,
                  omega (arith, b.live_eq, live),
                ),
              )
          | negsuc m ↦ λ s' (own, bound). (
            subst (λ o. Describes dev tail o.identity) (sym own) d,
            inl (refl, ap (λ o. o.registered) own ∙ same),
          )
        ])

  read_identity-some :
      (msg : Msg) (s : GadgetState W) (identity : Identity) (err : ℤ)
      → parse_init_pkt s.own.identity msg ≡ some (identity, err)
      → read_identity k g msg s
        ≡ some (err, record s { own = record s.own { identity = identity } })
  unfolding read_identity
  read_identity-some msg s identity err e = rw (e, read_identity)

  module _ (dev : Device) (a : IsAnnounced dev) (m : Msg) (packet : IsPacket dev a.device m)
      (two : 2 ≤ length (behind_data m)) where
    callback_new_device-Presented :
        (n : ℕ) (s : GadgetState W)
        → IsIdentity s.own.identity
        → s.heap.live ≡ objects s.eplist + n
        → (s.own.registered ≢ 0) ⊎ (s.eplist ≡ [])
        → Ok (Presented dev (behind_data m) s n) (callback_new_device k g m s)
    unfolding callback_new_device
    callback_new_device-Presented n s w e known =
        ▷-Ok (Presented dev (behind_data m) s n) _ (drop_device k g) _ s refl
          (drop_device-Ok n s e known)
          (λ _ s' (nil, live, own).
            let w' : IsIdentity s'.own.identity = subst (λ o. IsIdentity o.identity) (sym own) w in
            let read = parse_init_pkt-IsRead dev a s'.own.identity w' m packet two in
            rw (read_identity-some m s' read.read (pos 0) read.result, Ok, ◌▷◌)
              (register_device-Ok dev (behind_data m) s _ n
                (record {
                  speed_eq = read.speed_eq;
                  device_eq = read.device_eq;
                  conf_eq = read.conf_eq;
                  nb_int_eq = read.nb_int_eq;
                  parsed = read.parsed;
                })
                (ap (λ o. o.registered) own) nil live))

    -- The gadget, given the packet that build_init_pkt makes for a device, reads the identity of
    -- the device back and never leaves the memory. Unless its result is negative, it is then
    -- registered, and the two directions of control endpoint 0 are its only endpoints, whatever
    -- endpoints it had before; otherwise its flag is what it was. The device must have the
    -- descriptors of USB 2.0, no more than 64 altsettings and no more than 8 endpoints in each, and
    -- the memory of the message go on for two bytes. kmalloc gives as many bytes as it is asked
    -- for, every queued request can be dequeued, the driver is bound at once, and the variable
    -- without a value that a failed ubq_bind returns is negative. `n` objects are allocated besides
    -- those of endpoints, of which there are none when the gadget is not registered.
    pub gadget_recv_userland-Presented :
        (n : ℕ) (s : GadgetState W)
        → IsIdentity s.own.identity
        → s.heap.live ≡ objects s.eplist + n
        → (s.own.registered ≢ 0) ⊎ (s.eplist ≡ [])
        → Ok (Presented dev (behind_data m) s n) (gadget_recv_userland k g m s)
    unfolding gadget_recv_userland gadget_recv_userland_management
    gadget_recv_userland-Presented n s w e known =
        let managed : is_management_msg m ≡ true = ground (arith, packet.type_eq) in
        let other : is_usb_msg m ≡ false = ground (arith, managed) in
        let new : is_new_device_mng_msg m ≡ true = ground (arith, managed, packet.announces) in
        let kept : is_reset_mng_msg m ≡ false = ground (arith, managed, packet.announces) in
        rw (other, new, kept, managed, gadget_recv_userland, gadget_recv_userland_management)
          (▷-Ok (Presented dev (behind_data m) s n) _
            (callback_new_device k g m ▷ λ err. ret (error_or_zero err))
            (λ err. ret (error_or_zero err)) s refl
            (▷-Ok (Presented dev (behind_data m) s n) _ (callback_new_device k g m)
              (λ err. ret (error_or_zero err)) s refl (callback_new_device-Presented n s w e known)
              error_kept)
            error_kept)
      where
        error_kept :
            (err : ℤ) (s' : GadgetState W)
            → Presented dev (behind_data m) s n err s'
            → Presented dev (behind_data m) s n (error_or_zero err) s'
        error_kept (pos x) s' (d, inl (neg, same)) = cc
        error_kept (pos x) s' (d, inr (_, on, i, o, list, i', o', live)) =
            (d, inr (refl, on, i, o, list, i', o', live))
        error_kept (negsuc x) s' p = p
