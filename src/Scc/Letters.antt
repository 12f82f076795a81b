-- ===== src/Scc/Letters.antt =====
-- The letters that a channel of the serial controller receives.
use newmacemu.Common.{
  ℕ, zero, suc, ◌≡◌, refl, ap, ap₂, subst, ◌∙◌, ◌&&◌, ◌/◌, ◌^◌, ◌==◌, Bool, true, false, bit_and,
  bit_or, bit, if◌then◌else◌, List, [], ◌∷◌, ◌++◌,
}
use mathlib.Core.List.{append-nil, append_assoc}
use newmacemu.Scc.{SccIrq, ch_a_recv, ch_b_recv, SccCh, Scc, SccHost, ch, change_ch, scc_do_irq}
use newmacemu.Scc.Interrupts.{scc_do_irq-IsHandedOn}
use newmacemu.Scc.Channels.{recv_data, next_recv_data, keep_letter, fewer, is_empty}

ch-change_ch :
    {W : Type 0} (is_b : Bool) (f : SccCh → SccCh) (s : Scc W)
    → ch is_b (change_ch is_b f s) ≡ f (ch is_b s)
ch-change_ch true f s = refl
ch-change_ch false f s = refl

-- The channel holds the letters xs, and strips no sync letters.
record IsHolding {W : Type 0} (is_b : Bool) (xs : List ℕ) (s : Scc W) : Type 0 where
  letters : (ch is_b s).in_buf ≡ xs
  plain : bit (ch is_b s).recv_param 1 ≡ false

either :
    {W : Type 0} (is_b : Bool) (xs : List ℕ) (c : Bool) (s t : Scc W)
    → IsHolding is_b xs s
    → IsHolding is_b xs t
    → IsHolding is_b xs (if c then s else t)
either is_b xs true s t h k = h
either is_b xs false s t h k = k

module _ {W : Type 0} (host : SccHost W) (is_b : Bool) where
  irq-IsHolding :
      (xs : List ℕ) (which : SccIrq) (s : Scc W)
      → IsHolding is_b xs s
      → IsHolding is_b xs (scc_do_irq host which s)
  irq-IsHolding xs which s h =
      let same : ch is_b (scc_do_irq host which s) ≡ ch is_b s = unchanged is_b in
      record {
        letters = ap (λ c. c.in_buf) same ∙ h.letters;
        plain = ap (λ c. bit c.recv_param 1) same ∙ h.plain;
      }
    where
      unchanged : (b : Bool) → ch b (scc_do_irq host which s) ≡ ch b s
      unchanged true = (scc_do_irq-IsHandedOn host which s).channels.1
      unchanged false = (scc_do_irq-IsHandedOn host which s).channels.0

  change-IsHolding :
      (xs : List ℕ) (f : SccCh → SccCh) (s : Scc W)
      → ((f (ch is_b s)).in_buf ≡ xs)
      → (bit (f (ch is_b s)).recv_param 1 ≡ false)
      → IsHolding is_b xs (change_ch is_b f s)
  change-IsHolding xs f s letters plain = record {
    letters = ap (λ c. c.in_buf) (ch-change_ch is_b f s) ∙ letters;
    plain = ap (λ c. bit c.recv_param 1) (ch-change_ch is_b f s) ∙ plain;
  }

  keep_letter-IsHolding :
      (v : ℕ) (xs : List ℕ) (s : Scc W)
      → IsHolding is_b xs s
      → IsHolding is_b (xs ++ v ∷ []) (keep_letter host is_b v s)
  keep_letter-IsHolding v xs s h =
      let ys = xs ++ v ∷ [] in
      let s1 =
        change_ch is_b
          (λ c. record c { in_buf = c.in_buf ++ v ∷ []; buf_status = bit_or c.buf_status 1 }) s in
      let h1 : IsHolding is_b ys s1 =
        change-IsHolding ys
          (λ c. record c { in_buf = c.in_buf ++ v ∷ []; buf_status = bit_or c.buf_status 1 }) s
          (ap (λ zs. zs ++ v ∷ []) h.letters) h.plain in
      let s2 = change_ch is_b (λ c. record c { recv_first_letter = true }) s1 in
      let h2 : IsHolding is_b ys s2 =
        change-IsHolding ys (λ c. record c { recv_first_letter = true }) s1 h1.letters h1.plain in
      let mode = bit_and ((ch is_b s).w_r1 / 2 ^ 3) 3 in
      let first = (ch is_b s).recv_first_letter in
      let again = (ch is_b s2).recv_first_letter in
      let event = if is_b then ch_b_recv else ch_a_recv in
      let h3 : IsHolding is_b ys (if again then s2 else scc_do_irq host event s2) =
        either is_b ys again _ _ h2 (irq-IsHolding ys event s2 h2) in
      either is_b ys (mode == 2) _ _ (either is_b ys first _ _ h1 (irq-IsHolding ys event s1 h1))
        (either is_b ys (mode == 1) _ _ (either is_b ys first _ _ h2 h3) h1)

  -- A letter that finds room is put behind the others.
  recv_data-IsHolding :
      (v : ℕ) (xs : List ℕ) (s : Scc W)
      → fewer xs 8 ≡ true
      → IsHolding is_b xs s
      → IsHolding is_b (xs ++ v ∷ []) (recv_data host is_b v s)
  unfolding recv_data
  recv_data-IsHolding v xs s room h =
      let request = λ (c : SccCh). record c { v_scc_wr_req = bit (ch is_b s).w_r1 6 } in
      let h1 : IsHolding is_b xs (
          if bit (ch is_b s).w_r1 7 && is_empty (ch is_b s).in_buf
          then change_ch is_b request s
          else s) =
        either is_b xs (bit (ch is_b s).w_r1 7 && is_empty (ch is_b s).in_buf) _ _
          (change-IsHolding xs request s h.letters h.plain) h in
      let fits : fewer (ch is_b s).in_buf 8 ≡ true = ap (λ ys. fewer ys 8) h.letters ∙ room in
      rw (fits, h.plain) (keep_letter-IsHolding v xs _ h1)

  next_recv_data-IsHolding :
      (v : ℕ) (xs : List ℕ) (s : Scc W)
      → IsHolding is_b (v ∷ xs) s
      → ((next_recv_data host is_b s).0 ≡ v) × IsHolding is_b xs ((next_recv_data host is_b s).1)
  unfolding next_recv_data
  next_recv_data-IsHolding v xs s h =
      rw (next_recv_data, h.letters)
        (refl, change-IsHolding xs (λ c. record c { in_buf = xs; last_in_buf = v }) s refl h.plain)

-- A list of letters received one after another, and as many read.
abbrev pub received : {W : Type 0} → SccHost W → Bool → List ℕ → Scc W → Scc W
received host is_b [] s = s
received host is_b (v ∷ vs) s = received host is_b vs (recv_data host is_b v s)

abbrev pub drained : {W : Type 0} → SccHost W → Bool → List ℕ → Scc W → List ℕ
drained host is_b [] s = []
drained host is_b (v ∷ vs) s =
    (next_recv_data host is_b s).0 ∷ drained host is_b vs ((next_recv_data host is_b s).1)

fewer-append :
    (xs : List ℕ) (v : ℕ) (vs : List ℕ) (n : ℕ)
    → fewer (xs ++ v ∷ vs) (suc n) ≡ true
    → fewer xs n ≡ true
fewer-append [] v vs zero h = h
fewer-append [] v vs (suc n) h = refl
fewer-append (x ∷ xs) v vs zero h = h
fewer-append (x ∷ xs) v vs (suc n) h = fewer-append xs v vs n h

module _ {W : Type 0} (host : SccHost W) (is_b : Bool) where
  received-IsHolding :
      (vs xs : List ℕ) (s : Scc W)
      → fewer (xs ++ vs) 9 ≡ true
      → IsHolding is_b xs s
      → IsHolding is_b (xs ++ vs) (received host is_b vs s)
  received-IsHolding [] xs s room h = rw (append-nil xs) h
  received-IsHolding (v ∷ vs) xs s room h =
      let one = recv_data-IsHolding host is_b v xs s (fewer-append xs v vs 8 room) h in
      let all : (xs ++ v ∷ []) ++ vs ≡ xs ++ v ∷ vs = append_assoc xs (v ∷ []) vs in
      subst (λ ys. IsHolding is_b ys (received host is_b (v ∷ vs) s)) all
        (received-IsHolding vs (xs ++ v ∷ []) (recv_data host is_b v s)
          (ap (λ ys. fewer ys 9) all ∙ room) one)

  drained-IsHolding : (vs : List ℕ) (s : Scc W) → IsHolding is_b vs s → drained host is_b vs s ≡ vs
  drained-IsHolding [] s h = refl
  drained-IsHolding (v ∷ vs) s h =
      let one = next_recv_data-IsHolding host is_b v vs s h in
      ap₂ (λ w ws. w ∷ ws) (one.0) (drained-IsHolding vs ((next_recv_data host is_b s).1) (one.1))

  -- At most eight letters that a channel receives, with nothing waiting there and the stripping of sync
  -- letters off, are read back in their order, whatever interrupts they raise.
  pub drained-received :
      (vs : List ℕ) (s : Scc W)
      → fewer vs 9 ≡ true
      → (ch is_b s).in_buf ≡ []
      → bit (ch is_b s).recv_param 1 ≡ false
      → drained host is_b vs (received host is_b vs s) ≡ vs
  drained-received vs s room free plain =
      drained-IsHolding vs (received host is_b vs s)
        (received-IsHolding vs [] s room (record { letters = free; plain = plain }))
