-- ===== src/Scc/Interrupts.antt =====
-- The interrupts of the serial controller.
use newmacemu.Common.{
  ℕ, ◌≡◌, refl, ◌&&◌, ◌-◌, ◌*◌, ◌^◌, bit_and, Bool, true, false, bit_or, bit, if◌then◌else◌,
}
use newmacemu.Scc.{
  SccIrq, ch_b_send, ch_b_ex, ch_b_recv, ch_b_special, ch_a_send, ch_a_ex, ch_a_recv, ch_a_special,
  Scc, SccHost, scc_do_irq, raise_irq, irq_number,
}

abbrev pub is_receiver : SccIrq → Bool
is_receiver ch_a_recv = true
is_receiver _ = false

-- What an event leaves, if `called` says whether it is handed on.
pub record IsHandedOn {W : Type 0} (host : SccHost W) (called : Bool) (s after : Scc W)
    : Type 0 where
  pub world : after.world ≡ (if called then host.do_irq 4 s.world else s.world)
  pub pending : after.irq_pending ≡ (if called then bit_or s.irq_pending 0x20 else s.irq_pending)
  pub channels : (after.ch_a ≡ s.ch_a) × (after.ch_b ≡ s.ch_b)
  pub control : (after.cur_reg ≡ s.cur_reg) × (after.master_irq_ctl ≡ s.master_irq_ctl)

-- With every bit of `ius` set, only the receiver of channel A gets through.
raise_irq-IsHandedOn :
    {W : Type 0} (host : SccHost W) (which : SccIrq) (s : Scc W) (vec : ℕ)
    → IsHandedOn host
        (is_receiver which)
        s
        (raise_irq host which (record s { ius = 0x3f; int_vec = vec }))
raise_irq-IsHandedOn host ch_b_send s vec = record {
  world = refl;
  pending = refl;
  channels = (refl, refl);
  control = (refl, refl);
}
raise_irq-IsHandedOn host ch_b_ex s vec = record {
  world = refl;
  pending = refl;
  channels = (refl, refl);
  control = (refl, refl);
}
raise_irq-IsHandedOn host ch_b_recv s vec = record {
  world = refl;
  pending = refl;
  channels = (refl, refl);
  control = (refl, refl);
}
raise_irq-IsHandedOn host ch_b_special s vec = record {
  world = refl;
  pending = refl;
  channels = (refl, refl);
  control = (refl, refl);
}
raise_irq-IsHandedOn host ch_a_send s vec = record {
  world = refl;
  pending = refl;
  channels = (refl, refl);
  control = (refl, refl);
}
raise_irq-IsHandedOn host ch_a_ex s vec = record {
  world = refl;
  pending = refl;
  channels = (refl, refl);
  control = (refl, refl);
}
raise_irq-IsHandedOn host ch_a_recv s vec = record {
  world = refl;
  pending = refl;
  channels = (refl, refl);
  control = (refl, refl);
}
raise_irq-IsHandedOn host ch_a_special s vec = record {
  world = refl;
  pending = refl;
  channels = (refl, refl);
  control = (refl, refl);
}

gated :
    {W : Type 0} (host : SccHost W) (called on : Bool) (s a b : Scc W)
    → IsHandedOn host called s a
    → IsHandedOn host false s b
    → IsHandedOn host (called && on) s (if on then a else b)
gated host true true s a b h k = h
gated host false true s a b h k = h
gated host true false s a b h k = k
gated host false false s a b h k = k

-- For every event, SCC::doIrq reaches the processor, with bit 5 of the pending interrupts, if the event
-- is the receiver of channel A and bit 3 of the master control is set; for any other event neither the
-- pending interrupts nor the rest of the program change. The channels, the register selected and the
-- master control stay as they were.
pub scc_do_irq-IsHandedOn :
    {W : Type 0} (host : SccHost W) (which : SccIrq) (s : Scc W)
    → IsHandedOn host (is_receiver which && bit s.master_irq_ctl 3) s (scc_do_irq host which s)
unfolding scc_do_irq
scc_do_irq-IsHandedOn host which s =
    let vec_h : ℕ = if bit s.master_irq_ctl 4 then 4 else 1 in
    let vec = bit_or (bit_and s.int_vec (0xff - 7 * 2 ^ vec_h)) (irq_number which * 2 ^ vec_h) in
    gated host (is_receiver which) (bit s.master_irq_ctl 3) s
      (raise_irq host which (record s { ius = 0x3f; int_vec = vec })) (record s { ius = 0x3f })
      (raise_irq-IsHandedOn host which s vec)
      (record { world = refl; pending = refl; channels = (refl, refl); control = (refl, refl) })
