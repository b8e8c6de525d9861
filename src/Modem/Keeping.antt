-- ===== src/Modem/Keeping.antt =====
-- What the commands and the waits keep: what was done before, and what was received.
use dread.Base.{
  ℕ, zero, suc, ◌≡◌, refl, sym, subst, ap, ◌∙◌, Bool, false, not, some, List, [], ◌∷◌, ◌++◌,
  append-nil, ◌==◌, ◌&&◌, ltb, sub_u32, positive,
}
use dread.Hardware.{World, Port, flushed, millis, available, pop_byte, write, flush}
use dread.Hardware.Output.{
  print_number, ascii_digits, digits_from, write_each, bytes_to, trace-write_each,
}
use dread.Hardware.Returns.{Ends, Ends-if}
use dread.Hardware.Grown.{
  Grown, Grown-same, ◌after◌, write-Grown, write_each-Grown, pop_byte-Grown, Grows, Grows-later,
  Grows-then, Grown-println,
}
use dread.Modem.Commands.{
  Sim900, match_response, wait_loop, wait_for, print_p, set_at_number, byte_at, advance, at, at_cmd,
  set_at_cmd,
}
use dread.Modem.Packets.{
  Modem, plus_ftp_put_length, ftp_put_length, gsm_mout, gsm_tout, ok_text, send_packet_size,
  answered,
}
use dread.Modem.Matching.{received, received-append}

module _ (s : Sim900) (expected : List ℕ) where
  match_response-Grows :
      (fuel ptr : ℕ) (result : Bool) (w : World)
      → Grows w (match_response s fuel expected ptr result w)
  unfolding match_response Grows Ends
  match_response-Grows zero ptr result w = tt
  match_response-Grows (suc fuel) ptr result w =
      let (n, w1) = available s.hard_port w in
      let r = pop_byte s.hard_port w1 (w1.rx s.hard_port) in
      let ptr' = advance expected ptr r.0 in
      let w3 = write s.soft_port r.0 r.1 in
      Ends-if (λ a w'. Grown w w') (positive n && not result)
        (match_response s fuel expected ptr' (byte_at expected ptr' == 13) w3)
        (some ((result, ptr), w1))
        (λ on.
          Grows-later w w3 _
            (write-Grown s.soft_port r.0 r.1
              after pop_byte-Grown s.hard_port w1 (w1.rx s.hard_port)
              after Grown-same w w1 refl)
            (match_response-Grows fuel ptr' (byte_at expected ptr' == 13) w3))
        λ off. Grown-same w w1 refl

  wait_loop-Grows :
      (fuel timeout time ptr : ℕ) (success : Bool) (w : World)
      → Grows w (wait_loop s fuel expected timeout time ptr success w)
  unfolding wait_loop Grows Ends
  wait_loop-Grows zero timeout time ptr success w = tt
  wait_loop-Grows (suc fuel) timeout time ptr success w =
      let (now, w1) = millis w in
      Ends-if (λ a w'. Grown w w') (ltb (sub_u32 now time) timeout && not success) _
        (some (success, w1))
        (λ on. Grows-later w w1 _ (Grown-same w w1 refl) (
          Grows-then w1 (match_response s fuel expected ptr false w1) _
            (match_response-Grows fuel ptr false w1)
            λ r v. wait_loop-Grows fuel timeout time r.1 r.0 v))
        λ off. Grown-same w w1 refl

  pub wait_for-Grows : (fuel timeout : ℕ) (w : World) → Grows w (wait_for s fuel expected timeout w)
  unfolding wait_for Grows Ends
  wait_for-Grows fuel timeout w =
      let (time, w1) = millis w in
      Grows-later w w1 _ (Grown-same w w1 refl) (
        Grows-then w1 (wait_loop s fuel expected timeout time 0 false w1) _
          (wait_loop-Grows fuel timeout time 0 false w1) λ success v. Grown-println s.soft_port v)

-- What is put out changes nothing of what was received.
received-bytes : (p q : Port) (bs : List ℕ) → received p (bytes_to q bs) ≡ []
unfolding received
received-bytes p q [] = refl
received-bytes p q (b ∷ bs) = received-bytes p q bs

pub received-write_each :
    (p q : Port) (bs : List ℕ) (w : World)
    → received p (write_each q bs w).trace ≡ received p w.trace
received-write_each p q bs w =
    ap (received p) (trace-write_each q bs w)
    ∙ received-append p w.trace (bytes_to q bs)
    ∙ ap (λ l. received p w.trace ++ l) (received-bytes p q bs)
    ∙ append-nil (received p w.trace)

-- Ports and the bytes that go out at them, one after the other.
unfoldable write_lines : List (Port × List ℕ) → World → World
write_lines [] w = w
write_lines ((p, bs) ∷ rest) w = write_lines rest (write_each p bs w)

received-write_lines :
    (p : Port) (ls : List (Port × List ℕ)) (w : World)
    → received p (write_lines ls w).trace ≡ received p w.trace
unfolding write_lines
received-write_lines p [] w = refl
received-write_lines p ((q, bs) ∷ rest) w =
    received-write_lines p rest (write_each q bs w) ∙ received-write_each p q bs w

write_lines-Grown : (ls : List (Port × List ℕ)) (w : World) → Grown w (write_lines ls w)
unfolding write_lines
write_lines-Grown [] w = Grown-same w w refl
write_lines-Grown ((q, bs) ∷ rest) w =
    write_lines-Grown rest (write_each q bs w) after write_each-Grown q bs w

-- `setAtParameter` with a number, up to the wait for the response.
module _ (s : Sim900) (n : ℕ) (w : World) where
  abbrev command_lines : List (Port × List ℕ)
  command_lines =
      (s.hard_port, at)
      ∷ (s.hard_port, ftp_put_length)
      ∷ (s.hard_port, ascii_digits (digits_from 10 n 10 []))
      ∷ (s.hard_port, 13 ∷ 10 ∷ [])
      ∷ (s.soft_port, ascii_digits (digits_from 10 n 10 []))
      ∷ (s.soft_port, 13 ∷ 10 ∷ [])
      ∷ []

  pub commanded : World
  unfolding write_lines
  commanded = write_lines command_lines (flush s.hard_port w)

  pub set_at_number-waits :
      (fuel : ℕ)
      → set_at_number s fuel ftp_put_length plus_ftp_put_length n gsm_mout w
        ≡ wait_for s fuel plus_ftp_put_length gsm_mout commanded
  unfolding set_at_number print_p print_number commanded write_each
  set_at_number-waits fuel = refl

  pub received-commanded : received s.hard_port commanded.trace ≡ received s.hard_port w.trace
  unfolding commanded received
  received-commanded =
      received-write_lines s.hard_port command_lines (flush s.hard_port w)
      ∙ received-append s.hard_port w.trace (flushed s.hard_port ∷ [])
      ∙ append-nil (received s.hard_port w.trace)

  pub commanded-Grown : Grown w commanded
  unfolding commanded
  commanded-Grown =
      write_lines-Grown command_lines (flush s.hard_port w)
      after record { more = flushed s.hard_port ∷ []; grown = refl }

  pub set_at_number-Grows :
      (fuel : ℕ) → Grows w (set_at_number s fuel ftp_put_length plus_ftp_put_length n gsm_mout w)
  set_at_number-Grows fuel = subst (Grows w) (sym (set_at_number-waits fuel)) (
      Grows-later w commanded _ commanded-Grown
        (wait_for-Grows s plus_ftp_put_length fuel gsm_mout commanded))

-- The size of a packet is announced without the number: `sendPacketSize` sends a command and waits.
module _ (m : Modem) (fuel : ℕ) where
  at_cmd-Grown : (cmd : List ℕ) (w : World) → Grown w (at_cmd m.sim900 cmd w)
  unfolding at_cmd
  at_cmd-Grown cmd w =
      Grown-println m.sim900.hard_port
        (print_p m.sim900 cmd (print_p m.sim900 at (flush m.sim900.hard_port w)))
      after print_p-Grown cmd (print_p m.sim900 at (flush m.sim900.hard_port w))
      after print_p-Grown at (flush m.sim900.hard_port w)
      after record { more = flushed m.sim900.hard_port ∷ []; grown = refl }
    where
      print_p-Grown : (cmd : List ℕ) (w : World) → Grown w (print_p m.sim900 cmd w)
      print_p-Grown cmd w = write_each-Grown m.sim900.hard_port cmd w

  pub send_packet_size-Grows : (size : ℕ) (w : World) → Grows w (send_packet_size m fuel size w)
  unfolding send_packet_size set_at_cmd answered Grows Ends
  send_packet_size-Grows size w =
      Grows-then w (set_at_cmd m.sim900 fuel ftp_put_length ok_text gsm_tout w) _
        (Grows-later w (at_cmd m.sim900 ftp_put_length w) _ (at_cmd-Grown ftp_put_length w)
          (wait_for-Grows m.sim900 ok_text fuel gsm_tout (at_cmd m.sim900 ftp_put_length w)))
        λ sent v.
          Grows-then v (match_response m.sim900 fuel plus_ftp_put_length 0 false v) _
            (match_response-Grows m.sim900 plus_ftp_put_length fuel 0 false v)
            λ r u. Grown-same u u refl
