-- ===== src/Gadget/Relaying.antt =====
-- The message by which handle_setup of gadget.c tells userland of a control request.
use usbq_core.Gadget.{GadgetEndpoint}
use usbq_core.Gadget.Copying.{get_epid-take, ten-msg_get_data}
use usbq_core.Gadget.Offering.{IsRequest, setup_bytes}
use usbq_core.Gadget.Setup.{setup_id, setup_msg}
use usbq_core.Msg.{
  Msg, data_type, get_data, get_epid, msg_diff_size, msg_get_data, msg_get_data_size, msg_set_epid,
  msg_set_id,
}
use usbq_core.Msg.Alloc.{IsFresh}
use usbq_core.Msg.Copy.{Fits, HasRoom, length-get_data, msg_get_data_size-Fits, msgcpy-append}
use usbq_core.Msg.Headers.{msg_set_epid-get_epid}
use usbq_core.Types.{Epid, dir_of_ctrl, dir_out, is_ctrl, is_isochronous, w_length}
use usbq_core.Prelude.{
  Bool-cases, Bytes, ap, arith, drop, inl, inr, length, some, sym, take, ◌++◌, ◌<◌, ◌>>=◌, ◌||◌,
  ◌∙◌, ◌≡◌, ◌≤◌,
}

-- The message that tells userland of a control request.
pub record Asks (c : Bytes) (m : Msg) : Type 0 where
  pub data_eq : get_data m ≡ c
  pub type_eq : m.type ≡ data_type
  pub epid_eq : get_epid m ≡ setup_id c
  pub fits : Fits m

module _ (ep : GadgetEndpoint) (c : Bytes) (eight : length c ≡ 8)
    (dir_eq : ep.epid.dir ≡ dir_of_ctrl c) (dir_le : ep.epid.dir ≤ dir_out) where
  pub setup_msg-Asks :
      (m : Msg) → IsFresh 8 data_type m → (m' : Msg) × (setup_msg ep c m ≡ some m') × Asks c m'
  unfolding setup_msg msg_set_id msg_set_epid setup_id msg_diff_size
  setup_msg-Asks m fresh =
      let id : Epid = record { num = 0; type = 0; dir = ep.epid.dir } in
      let (m1, e1, epid_eq, data_eq, type_eq, size_eq, len, _, u) =
        msg_set_epid-get_epid m id
          (record { fits = fresh.fits; usb = omega (arith, fresh.type_eq) })
          (record {
            num_lt = omega arith;
            type_lt = omega arith;
            dir_lt = omega (arith, dir_le);
          }) in
      let fit : HasRoom m1 (length c) =
        omega (arith, size_eq, len, fresh.size_eq, fresh.body_length, eight) in
      let (m2, e2, data_eq', headers, type_eq', _, fits) = msgcpy-append m1 c u.fits fit in
      (
        m2,
        rw (e1, ◌>>=◌) e2,
        record {
          data_eq = data_eq' ∙ ap (λ l. l ++ c) (data_eq ∙ fresh.empty);
          type_eq = type_eq' ∙ type_eq ∙ fresh.type_eq;
          epid_eq =
              get_epid-take (msg_get_data m1) m1 m2
                (ten-msg_get_data m1 (omega (arith, type_eq, fresh.type_eq))) headers
              ∙ epid_eq
              ∙ ap (λ d. record { num = 0; type = 0; dir = d }) dir_eq;
          fits = fits;
        },
      )

-- It is one that can be sent back.
pub Asks-IsRequest :
    (id : Epid) (c : Bytes) (m : Msg)
    → length c ≡ 8
    → w_length c < 65536
    → Asks c m
    → IsRequest id m
unfolding get_data
Asks-IsRequest id c m eight small a =
    let len : msg_get_data_size m ≡ 8 =
      sym (length-get_data m a.fits) ∙ ap length a.data_eq ∙ eight in
    let same : setup_bytes m ≡ c =
      ap (λ n. take n (drop (msg_get_data m) m.body)) (sym len) ∙ a.data_eq in
    record {
      carried = record {
        fits = a.fits;
        usb = omega (arith, a.type_eq);
        small = omega (arith, len, msg_get_data_size-Fits m a.fits, msg_diff_size-le m a.type_eq);
      };
      enough = elim (Bool-cases (is_ctrl id || is_isochronous id)) [
        | inl y ↦ rw y (omega (arith, ap length a.data_eq, eight))
        | inr y ↦ rw y (omega arith)
      ];
      length_lt = omega (arith, ap w_length same, small);
    }
  where
    msg_diff_size-le : (m : Msg) → m.type ≡ data_type → msg_diff_size m.type ≤ 22
    msg_diff_size-le m e = unfold msg_diff_size in ground (arith, e)
