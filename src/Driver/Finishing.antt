-- ===== src/Driver/Finishing.antt =====
-- The completion of any waiting request of the driver, on a steady state: recv of driver.c.
use usbq_core.Action.{Ok, Ok-map, lift, ret, ▷-Ok, ◌▷◌}
use usbq_core.Driver.Callbacks.{
  ep_clear_halt, ep_driver_recv_usb, ep_driver_recv_usb_isoc, ep_driver_send_usb,
  ep_driver_send_userland,
}
use usbq_core.Driver.Dispatch.{
  ep_driver_recv_usb_ctrl, recv, recv_stalled, recv_status, recv_usb, report_stall,
}
use usbq_core.Driver.Freeing.{freed, watch_of, with_urb_result}
use usbq_core.Driver.Offering.{ep_driver_send_usb-waits}
use usbq_core.Driver.Receiving.{ep_driver_send_userland-Grew}
use usbq_core.Driver.Request.{
  ctrlrequest, data_at, ep_free_driver_request, free_driver_request, get_pipe,
}
use usbq_core.Driver.Selecting.{configure-Keeps}
use usbq_core.Driver.Sound.{
  Grew-IsWatched, IsLinked, IsWatched, Readable, Submits, Submits-IsWatched, Watch,
}
use usbq_core.Driver.State.{DriverEndpoint, DriverRequest, DriverState}
use usbq_core.Driver.Switching.{Configures}
use usbq_core.Endpoint.{Kernel, memory, release, send_userland}
use usbq_core.Msg.{Msg, msg_set_data_size}
use usbq_core.Msg.Ack.{alloc_msg_ack-null}
use usbq_core.Part.{free_msg, new_ack, with_msg}
use usbq_core.Part.Accounts.{Gives, Grew, world-Grew}
use usbq_core.Part.Held.{IsIn-Held}
use usbq_core.Part.Members.{IsIn-Present}
use usbq_core.Part.Requests.{free_request}
use usbq_core.Types.{
  dir_in, is_bulk, is_ctrl, is_in, is_interrupt, is_isochronous, is_set_configuration,
}
use usbq_core.Prelude.{
  Bool-cases, Every-IsIn, IsIn, arith, drop, epipe, error_or_zero, false, if◌then◌else◌, inl, inr,
  is_nonzero, load-ok, ltb, negsuc, none, not, pos, refl, some, suc, take, true, zero, ℕ, ℤ, ◌&&◌,
  ◌==◌, ◌||◌, ◌≡◌,
}

module _ {W : Type 0} (k : Kernel W) (gives : Gives k) (configures : Configures k) (n : ℕ)
    (ep : DriverEndpoint) (req : DriverRequest) where
  abbrev watch : Watch
  watch = watch_of ep req

  -- The request still waits.
  abbrev J : DriverState W → Type 0
  J = IsWatched n (some watch)

  abbrev Q : Unit {0} → DriverState W → Type 0
  Q _ s = IsWatched n none s

  unwatched : (s : DriverState W) → J s → IsWatched n none s
  unwatched s j = record { steady = j.steady; watched = tt }

  told : (m : Msg) (s : DriverState W) → J s → Ok (λ _ s'. J s') (ep_driver_send_userland k m s)
  told m s j =
      Ok-map (λ _ s'. Grew s 0 s') (λ _ s'. J s') (ep_driver_send_userland k m s)
        (λ _ s' grew. Grew-IsWatched n (some watch) s s' j 0 grew)
        (ep_driver_send_userland-Grew k gives n m s)

  module _ (linked : IsLinked ep) (a : Readable ep.epid req) where
    -- The endpoint waits for what comes next.
    waits :
        (s : DriverState W)
        → is_ctrl ep.epid ≡ false
        → J s
        → Ok (λ _ s'. J s') (ep_driver_send_usb k ep none s)
    waits s other j =
        Ok-map (λ _ s'. Submits ep s s') (λ _ s'. J s') (ep_driver_send_usb k ep none s)
          (λ _ s' sub. Submits-IsWatched n (some watch) ep s s' j (j.watched.1) sub)
          (ep_driver_send_usb-waits k gives s ep linked other)

    module _ (status : ℤ) (actual : ℕ) (s : DriverState W) (j : J s) where
      abbrev done : DriverRequest
      done = with_urb_result status actual req

      ctrl-J : is_ctrl ep.epid ≡ true → Ok (λ _ s'. J s') (ep_driver_recv_usb_ctrl k ep done s)
      unfolding ep_driver_recv_usb_ctrl ctrlrequest
      ctrl-J c = elim (Bool-cases (ep.epid.dir == dir_in)) [
        | inl i ↦ rw (i, ep_driver_recv_usb_ctrl) (told _ s j)
        | inr o ↦ elim (Bool-cases (ep.epid.num == 0)) [
          | inr other ↦ rw (o, ep_driver_recv_usb_ctrl, other) j
          | inl zero_eq ↦ elim a [
            | inl other ↦ absurd (ground (arith, other, c))
            | inr within ↦
                rw
                  (
                    o,
                    ep_driver_recv_usb_ctrl,
                    zero_eq,
                    load-ok req.msg.body data_at 8 within,
                    Ok,
                    ◌▷◌,
                    lift,
                  )
                  (elim (Bool-cases (is_set_configuration (take 8 (drop data_at req.msg.body)))) [
                    | inl y ↦ rw y (configure-Keeps k gives n (some watch) c configures s j)
                    | inr y ↦ rw y j
                  ])
          ]
        ]
      ]

      isoc-J : is_ctrl ep.epid ≡ false → Ok (λ _ s'. J s') (ep_driver_recv_usb_isoc k ep done s)
      unfolding ep_driver_recv_usb_isoc
      isoc-J other = elim (Bool-cases (ep.epid.dir == dir_in)) [
        | inr o ↦ rw (o, ep_driver_recv_usb_isoc) j
        | inl i ↦ elim (Bool-cases (ltb 0 actual && not (is_nonzero status))) [
          | inl y ↦ rw (i, ep_driver_recv_usb_isoc, y) (told (msg_set_data_size req.msg actual) s j)
          | inr y ↦
              rw (i, ep_driver_recv_usb_isoc, y)
                (▷-Ok (λ _ s'. J s') _ (ep_driver_send_usb k ep none)
                  (λ err. ret (error_or_zero err)) s refl (waits s other j) (λ _ s' j'. j'))
        ]
      ]

      data-J : Ok (λ _ s'. J s') (ep_driver_recv_usb k ep done s)
      unfolding ep_driver_recv_usb
      data-J = elim (Bool-cases (ep.epid.dir == dir_in)) [
        | inl i ↦ rw (i, ep_driver_recv_usb) (told (msg_set_data_size req.msg actual) s j)
        | inr o ↦ rw (o, ep_driver_recv_usb) j
      ]

      recv_usb-J : Ok (λ _ s'. J s') (recv_usb k ep done s)
      unfolding recv_usb
      recv_usb-J = elim (Bool-cases (is_ctrl ep.epid)) [
        | inl c ↦ rw (c, recv_usb) (ctrl-J c)
        | inr other ↦ elim (Bool-cases (is_isochronous ep.epid)) [
          | inl i ↦ rw (other, recv_usb, i) (isoc-J other)
          | inr i ↦
              let known : (is_bulk ep.epid || is_interrupt ep.epid) ≡ true =
                ground (arith, linked.real.real.type_le, other, i) in
              rw (other, recv_usb, i, known) data-J
        ]
      ]

      -- A stall: the halt is cleared, or userland is told.
      stalled-J : Ok (λ _ s'. J s') (recv_stalled k ep s)
      unfolding recv_stalled ep_clear_halt new_ack with_msg report_stall free_msg release
          ep_driver_send_userland send_userland
      stalled-J = elim (Bool-cases (is_in ep.epid)) [
        | inr o ↦ rw (o, recv_stalled) j
        | inl i ↦ elim (Bool-cases (is_ctrl ep.epid)) [
          | inr other ↦
              let moved : DriverState W = record s {
                heap = record s.heap {
                  world = (k.usb_clear_halt (get_pipe ep.epid) s.heap.world).1;
                };
              } in
              rw (i, recv_stalled, other)
                (▷-Ok (λ _ s'. J s') _ (ep_driver_send_usb k ep none) (λ _. ret true) moved refl
                  (waits moved other (Grew-IsWatched n (some watch) s moved j 0 (world-Grew _ _)))
                  (λ _ s' j'. j'))
          | inl c ↦
              elim (alloc_msg_ack-null (memory k s.heap.world) (gives s.heap.world) ep.epid epipe
                linked.real.real linked.real.narrow) [
                  | inl e ↦
                      rw (i, recv_stalled, c, e, Ok, lift, ◌▷◌)
                        (Grew-IsWatched n (some watch) s _ j 0 (world-Grew _ _))
                  | inr (m, e, ack) ↦
                      rw (i, recv_stalled, c, e, Ok, lift, ◌▷◌)
                        (Grew-IsWatched n (some watch) s _ j 0 (record {
                          own_eq = refl;
                          same = refl;
                          live_eq = omega arith;
                          next_le = omega arith;
                        }))
                ]
        ]
      ]

    recv_status-J :
        (status : ℤ) (actual : ℕ) (s : DriverState W)
        → J s
        → Ok (λ _ s'. J s') (recv_status k ep (with_urb_result status actual req) status s)
    unfolding recv_status
    recv_status-J (pos zero) actual s j =
        ▷-Ok (λ _ s'. J s') _ (recv_usb k ep (with_urb_result (pos 0) actual req)) (λ _. ret true) s
          refl (recv_usb-J (pos 0) actual s j) (λ _ s' j'. j')
    recv_status-J (pos (suc m)) actual s j = j
    recv_status-J (negsuc m) actual s j = elim (Bool-cases (m == 31)) [
      | inl stall ↦ rw (stall, recv_status) (stalled-J (negsuc m) actual s j)
      | inr other ↦ rw (other, recv_status) j
    ]

    recv-Q :
        (status : ℤ) (actual : ℕ) (s : DriverState W)
        → J s
        → Ok Q (recv k ep (with_urb_result status actual req) s)
    unfolding recv
    recv-Q status actual s j =
        let done : DriverRequest = with_urb_result status actual req in
        ▷-Ok Q _ (recv_status k ep done status)
          (λ go_on. if go_on then ep_free_driver_request k ep done else ret tt) s refl
          (recv_status-J status actual s j)
          (λ go_on s' j'. elim (Bool-cases go_on) [
            | inl y ↦ rw y (freed' s' j')
            | inr y ↦ rw y (unwatched s' j')
          ])
      where
        -- What is freed is known by its address.
        freed' :
            (s : DriverState W)
            → J s
            → Ok Q (ep_free_driver_request k ep (with_urb_result status actual req) s)
        freed' s j =
            unfold ep_free_driver_request free_driver_request free_request in freed k n ep req s j

module _ {W : Type 0} (k : Kernel W) (gives : Gives k) (configures : Configures k) (n : ℕ) where
  -- Whatever request of whatever endpoint is done.
  pub recv-V :
      (ep : DriverEndpoint) (req : DriverRequest) (status : ℤ) (actual : ℕ) (s : DriverState W)
      → IsWatched n none s
      → IsIn ep s.eplist
      → IsIn req ep.reqlist
      → Ok (λ _ s'. IsWatched n none s') (recv k ep (with_urb_result status actual req) s)
  recv-V ep req status actual s v m m' =
      let linked : IsLinked ep = Every-IsIn IsLinked ep s.eplist v.steady.linked m in
      recv-Q k gives configures n ep req linked
        (Every-IsIn (Readable ep.epid) req ep.reqlist linked.requests m') status actual s
        (record {
          steady = v.steady;
          watched = (
            IsIn-Held ep req s.eplist v.steady.addressed.distinct m m',
            IsIn-Present ep s.eplist m,
          );
        })
