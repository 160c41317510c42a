-- ===== src/Chips/Nec7210/Addressing.antt =====
-- The status word after `nec7210_update_status_nolock` of
-- linux-gpib-kernel/drivers/gpib/nec7210/nec7210.c.
use linux_gpib.Prelude.{
  ℕ, Bool, false, not, ◌&&◌, ◌||◌, ◌≡◌, refl, sym, inl, inr, ◌==◌, if◌then◌else◌, has, with, assign,
  bits, Bool-cases, arith,
}
use linux_gpib.Uapi.Status.{lacs, tacs, atn, cic, spoll, request_service_bit}
use linux_gpib.Chips.Nec7210.{
  hr_ta, hr_la, hr_natn, hr_spms, hr_cic, Irq, Chip, talker_of, listener_of, is_talker, is_listener,
  nec7210_update_status_nolock, nec7210_atn_has_changed,
}

is_talker-talker_of :
    (adsr : ℕ)
    → is_talker (talker_of adsr) ≡ (has adsr hr_ta && not (has adsr hr_natn && has adsr hr_spms))
unfolding is_talker talker_of
is_talker-talker_of adsr = elim (Bool-cases (has adsr hr_ta)) [
  | inr e ↦ simp e refl
  | inl e ↦ elim (Bool-cases (has adsr hr_natn)) [
    | inr e2 ↦ simp (e, e2) refl
    | inl e2 ↦ elim (Bool-cases (has adsr hr_spms)) [
      | inl e3 ↦ simp (e, e2, e3) refl
      | inr e3 ↦ simp (e, e2, e3) refl
    ]
  ]
]

is_listener-listener_of : (adsr : ℕ) → is_listener (listener_of adsr) ≡ has adsr hr_la
unfolding is_listener listener_of
is_listener-listener_of adsr = elim (Bool-cases (has adsr hr_la)) [
  | inr e ↦ simp e refl
  | inl e ↦ elim (Bool-cases (has adsr hr_natn)) [
    | inl e2 ↦ simp (e, e2) refl
    | inr e2 ↦ simp (e, e2) refl
  ]
]

-- five bits of a word, set one after the other
five_bits :
    (s k : ℕ) (in_charge talks listens attention served : Bool)
    → has
        (let s' =
            assign
              (assign (assign (assign s cic in_charge) tacs talks) lacs listens)
              atn
              attention in
          if served then with s' spoll else s')
        k
      ≡ (if k == cic
          then in_charge
          else (if k == atn
              then attention
              else (if k == lacs
                  then listens
                  else (if k == tacs then talks else (k == spoll && served || has s k)))))
five_bits s k in_charge talks listens attention served =
    let s' =
      assign (assign (assign (assign s cic in_charge) tacs talks) lacs listens) atn attention in
    elim (Bool-cases served) [
      | inl e ↦ simp (e, bits) (ground arith)
      | inr e ↦ simp (e, bits) (ground arith)
    ]

status_bit :
    (irq : Irq) (c : Chip) (k : ℕ)
    → has (nec7210_update_status_nolock irq c).status k ≡ (
        if k == cic
        then has irq.adsr hr_cic
        else (if k == atn
            then not (has irq.adsr hr_natn)
            else (if k == lacs
                then has irq.adsr hr_la
                else (if k == tacs
                    then has irq.adsr hr_ta && not (has irq.adsr hr_natn && has irq.adsr hr_spms)
                    else (k == spoll && (c.srq_pending && not (has irq.spsr request_service_bit))
                        || has c.status k)))))
unfolding nec7210_update_status_nolock
status_bit irq c k = rw (sym (is_talker-talker_of irq.adsr)) (
    rw (sym (is_listener-listener_of irq.adsr)) (
      five_bits c.status k (has irq.adsr hr_cic) (is_talker (talker_of irq.adsr))
        (is_listener (listener_of irq.adsr)) (not (has irq.adsr hr_natn))
        (c.srq_pending && not (has irq.spsr request_service_bit))))

-- After an update of the status, from the address status register of the chip: CIC says that the
-- board is the controller in charge; ATN that NATN is off; LACS that the board is addressed to
-- listen; TACS that it is addressed to talk, without an active serial poll; SPOLL is set if a
-- request for service that the board has made is no longer pending, and is as before otherwise; all
-- other bits are as before. The handler sees no change of ATN any more.
pub nec7210_update_status_bits :
    (irq : Irq) (c : Chip) (k : ℕ)
    → (has (nec7210_update_status_nolock irq c).status k ≡ (
        if k == cic
        then has irq.adsr hr_cic
        else (if k == atn
            then not (has irq.adsr hr_natn)
            else (if k == lacs
                then has irq.adsr hr_la
                else (if k == tacs
                    then has irq.adsr hr_ta && not (has irq.adsr hr_natn && has irq.adsr hr_spms)
                    else (k == spoll && (c.srq_pending && not (has irq.spsr request_service_bit))
                        || has c.status k))))))
      × (nec7210_atn_has_changed irq (nec7210_update_status_nolock irq c) ≡ false)
unfolding nec7210_atn_has_changed
nec7210_update_status_bits irq c k = (
  status_bit irq c k,
  elim (Bool-cases (has irq.adsr hr_natn)) [
    | inl e ↦ simp (e, status_bit irq c atn) refl
    | inr e ↦ simp (e, status_bit irq c atn) refl
  ],
)
