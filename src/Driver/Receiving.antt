-- ===== src/Driver/Receiving.antt =====
-- driver_recv_userland of driver.c on a steady state.
use usbq_core.Action.{Act, Ok, Ok-map, lift, ret, ▷-Ok, ◌▷◌}
use usbq_core.Driver.Callbacks.{
  ep_driver_recv_userland, ep_driver_send_usb, ep_driver_send_userland,
}
use usbq_core.Driver.Dispatch.{acknowledge_interface, ep_driver_recv_userland_ctrl, recv_userland}
use usbq_core.Driver.Interfaces.{set_driver_interface}
use usbq_core.Driver.Offering.{IsSendable, ep_driver_send_usb-Submits, ep_driver_send_usb-waits}
use usbq_core.Driver.Request.{ctrlrequest, data_at}
use usbq_core.Driver.Sound.{Grew-IsWatched, IsLinked, IsWatched, Submits, Submits-IsWatched}
use usbq_core.Driver.State.{DriverEndpoint, DriverState}
use usbq_core.Driver.Selecting.{set_driver_interface-Keeps}
use usbq_core.Driver.Switching.{Offers}
use usbq_core.Endpoint.{Kernel, find_endpoint, memory, release, send_userland}
use usbq_core.Endpoint.Find.{find_endpoint-same_epid}
use usbq_core.Msg.{Msg, get_data, get_epid, is_usb_ack, msg_get_data_size}
use usbq_core.Msg.Ack.{alloc_msg_ack-IsAck}
use usbq_core.Msg.Copy.{length-get_data}
use usbq_core.Part.{free_msg, new_ack, with_msg}
use usbq_core.Part.Accounts.{Gives, Grew, world-Grew}
use usbq_core.Part.Members.{Every-find_endpoint, Present, find_endpoint-Present}
use usbq_core.Part.Table.{same_epid-eq}
use usbq_core.Types.{
  is_bulk, is_ctrl, is_interrupt, is_isochronous, is_set_interface, w_index, w_value,
}
use usbq_core.Prelude.{
  Bool-cases, Bytes, ap, arith, drop, error_or_zero, false, inl, inr, is_neg, length, load, load-ok,
  none, pos, refl, some, subst, suc, sym, take, true, ℕ, ℤ, ◌||◌, ◌∙◌, ◌≡◌, ◌≤◌, ◌⊎◌,
}

-- A message of userland for an endpoint. On an endpoint other than a control endpoint it may be an
-- acknowledgement; a standard SET_INTERFACE is for an interface and an alternate setting that are
-- there.
pub record IsForDriver {W : Type 0} (k : Kernel W) (msg : Msg) : Type 0 where
  pub sendable :
      ((is_ctrl (get_epid msg) ≡ false) × (is_usb_ack msg ≡ true)) ⊎ IsSendable (get_epid msg) msg
  pub offers :
      (is_set_interface (take 8 (drop data_at msg.body)) ≡ true)
      → Offers k
          (w_index (take 8 (drop data_at msg.body)))
          (w_value (take 8 (drop data_at msg.body)))

module _ {W : Type 0} (k : Kernel W) (gives : Gives k) (n : ℕ) where
  abbrev pub V : {A : Type 0} → A → DriverState W → Type 0
  V a s = IsWatched n none s

  -- The error that a handler passes on changes nothing.
  pub V-result :
      (m : Act (DriverState W) ℤ) (s : DriverState W)
      → Ok V (m s)
      → Ok V ((m ▷ λ err. ret (error_or_zero err)) s)
  V-result m s v = ▷-Ok V (m s) m (λ err. ret (error_or_zero err)) s refl v (λ err s' v'. v')

  -- A message that was made is one object more, which is freed again.
  pub held_message :
      (s s' : DriverState W) → IsWatched n none s → Grew s 1 s' → IsWatched (suc n) none s'
  held_message s s' v grew =
      let v' : IsWatched n none s' = Grew-IsWatched n none s s' v 1 grew in
      record {
        steady = record {
          addressed = v'.steady.addressed;
          linked = v'.steady.linked;
          live_le = rw grew.same (omega (arith, v.steady.live_le, grew.live_eq));
        };
        watched = tt;
      }

  pub free_msg-V : (s : DriverState W) → IsWatched (suc n) none s → Ok V (free_msg k s)
  unfolding free_msg release
  free_msg-V s v = record {
    steady = record {
      addressed = record {
        distinct = v.steady.addressed.distinct;
        before = v.steady.addressed.before;
      };
      linked = v.steady.linked;
      live_le = omega (arith, v.steady.live_le);
    };
    watched = tt;
  }

  -- Sending to userland leaves the endpoints and the count.
  pub ep_driver_send_userland-Grew :
      (m : Msg) (s : DriverState W) → Ok (λ _ s'. Grew s 0 s') (ep_driver_send_userland k m s)
  unfolding ep_driver_send_userland send_userland
  ep_driver_send_userland-Grew m s = world-Grew _ _

  acknowledge_interface-V :
      (c : Bytes)
      → Offers k (w_index c) (w_value c)
      → (m : Msg) (s : DriverState W) → IsWatched (suc n) none s
      → Ok V (acknowledge_interface k c (some m) s)
  unfolding acknowledge_interface
  acknowledge_interface-V c offers m s v =
      ▷-Ok V _ (set_driver_interface k (w_index c) (w_value c)) _ s refl
        (set_driver_interface-Keeps k gives (suc n) none tt (w_index c) (w_value c) offers s v)
        (λ err s' v'. elim (Bool-cases (is_neg err)) [
          | inl neg ↦
              rw neg
                (▷-Ok V _ (free_msg k) (λ _. ret err) s' refl (free_msg-V s' v') (λ _ s'' v''. v''))
          | inr good ↦ rw good (
              ▷-Ok V _ (ep_driver_send_userland k m) _ s' refl (ep_driver_send_userland-Grew m s')
                (λ err' s'' grew.
                  ▷-Ok V _ (free_msg k) (λ _. ret (error_or_zero err')) s'' refl
                    (free_msg-V s'' (Grew-IsWatched (suc n) none s' s'' v' 0 grew))
                    (λ _ s''' v'''. v''')))
        ])

  module _ (ep : DriverEndpoint) (s : DriverState W) (v : IsWatched n none s) (msg : Msg)
      (found : find_endpoint (get_epid msg) s.eplist ≡ some ep) (r : IsForDriver k msg) where
    same : get_epid msg ≡ ep.epid
    same =
        same_epid-eq (get_epid msg) ep.epid
          (find_endpoint-same_epid (get_epid msg) ep s.eplist found)

    linked : IsLinked ep
    linked = Every-find_endpoint IsLinked (get_epid msg) ep s.eplist v.steady.linked found

    here : Present ep.ref ep.epid s.eplist
    here = find_endpoint-Present (get_epid msg) ep s.eplist found

    -- The message is sent on the endpoint.
    passed : IsSendable (get_epid msg) msg → Ok V (ep_driver_send_usb k ep (some msg) s)
    passed q =
        Ok-map (λ _ s'. Submits ep s s') V (ep_driver_send_usb k ep (some msg) s)
          (λ _ s' sub. Submits-IsWatched n none ep s s' v here sub)
          (ep_driver_send_usb-Submits k gives s ep linked msg
            (subst (λ id. IsSendable id msg) same q))

    -- An acknowledgement asks for what comes next.
    asked : is_ctrl ep.epid ≡ false → Ok V (ep_driver_send_usb k ep none s)
    asked other =
        Ok-map (λ _ s'. Submits ep s s') V (ep_driver_send_usb k ep none s)
          (λ _ s' sub. Submits-IsWatched n none ep s s' v here sub)
          (ep_driver_send_usb-waits k gives s ep linked other)

    -- The acknowledgement of a SET_INTERFACE.
    switched :
        IsSendable (get_epid msg) msg
        → Offers k
            (w_index (take 8 (drop data_at msg.body)))
            (w_value (take 8 (drop data_at msg.body)))
        → Ok V (
            (new_ack k ep.epid (pos 0) (some (get_data msg)) (msg_get_data_size msg)
                ▷ acknowledge_interface k (take 8 (drop data_at msg.body)))
              s)
    unfolding new_ack with_msg acknowledge_interface
    switched q offers =
        let len : length (get_data msg) ≡ msg_get_data_size msg = length-get_data msg q.fits in
        elim (alloc_msg_ack-IsAck (memory k s.heap.world) (gives s.heap.world) ep.epid (pos 0)
          (get_data msg) linked.real.real linked.real.narrow (omega (arith, len, q.small))) [
            | inl e ↦
                rw (sym len, e, Ok, lift, ◌▷◌, acknowledge_interface)
                  (Grew-IsWatched n none s _ v 0 (world-Grew _ _))
            | inr (m, e, ack) ↦
                rw (sym len, e, Ok, lift, ◌▷◌)
                  (acknowledge_interface-V (take 8 (drop data_at msg.body)) offers m _ (
                    held_message s _ v (record {
                      own_eq = refl;
                      same = refl;
                      live_eq = omega arith;
                      next_le = omega arith;
                    })))
          ]

    ctrl-V : is_ctrl ep.epid ≡ true → Ok V (ep_driver_recv_userland_ctrl k ep msg s)
    unfolding ep_driver_recv_userland_ctrl ctrlrequest
    ctrl-V c = elim r.sendable [
      | inl (other, _) ↦ absurd (ground (arith, ap is_ctrl same, other, c))
      | inr q ↦
          let enough : 8 ≤ msg_get_data_size msg = q.request (ap is_ctrl same ∙ c) in
          let setup : load msg.body data_at 8 ≡ some (take 8 (drop data_at msg.body)) =
            load-ok msg.body data_at 8 (omega (arith, enough, q.within)) in
          rw (setup, Ok, ◌▷◌, lift)
            (elim (Bool-cases (is_set_interface (take 8 (drop data_at msg.body)))) [
              | inl y ↦ rw y (switched q (r.offers y))
              | inr y ↦ rw y (V-result (ep_driver_send_usb k ep (some msg)) s (passed q))
            ])
    ]

    pub recv_userland-V : Ok V (recv_userland k ep msg s)
    unfolding recv_userland ep_driver_recv_userland
    recv_userland-V = elim (Bool-cases (is_ctrl ep.epid)) [
      | inl c ↦ rw (c, recv_userland) (ctrl-V c)
      | inr other ↦
          let known : (is_isochronous ep.epid || is_bulk ep.epid || is_interrupt ep.epid) ≡ true =
            ground (arith, linked.real.real.type_le, other) in
          rw (other, known, recv_userland)
            (elim (Bool-cases (is_usb_ack msg)) [
              | inl ack ↦ rw ack (V-result (ep_driver_send_usb k ep none) s (asked other))
              | inr sent ↦ elim r.sendable [
                | inl (_, ack) ↦ absurd (ground (arith, ack, sent))
                | inr q ↦ rw sent (V-result (ep_driver_send_usb k ep (some msg)) s (passed q))
              ]
            ])
    ]
