-- ===== src/Modem/Output.antt =====
-- What a command puts out on the port of the modem.
use dread.Base.{ℕ, ◌≡◌, refl, sym, ap, ◌∙◌, List, [], ◌∷◌, ◌++◌}
use dread.Hardware.{World, flushed, write, flush}
use dread.Hardware.Output.{write_each, bytes_to, trace-write_each}
use dread.Modem.{Sim900, at, print_p, at_cmd}

write_each-append :
    (p : ℕ) (xs ys : List ℕ) (w : World)
    → write_each p (xs ++ ys) w ≡ write_each p ys (write_each p xs w)
unfolding write_each
write_each-append p [] ys w = refl
write_each-append p (x ∷ xs) ys w = write_each-append p xs ys (write p x w)

-- The port is flushed, then "AT+", the command, carriage return and line feed go out, in this order, and
-- nothing else happens.
pub at_cmd-trace :
    (s : Sim900) (cmd : List ℕ) (w : World)
    → (at_cmd s cmd w).trace
      ≡ (w.trace ++ (flushed s.hard_port ∷ []))
        ++ bytes_to s.hard_port (at ++ (cmd ++ (13 ∷ 10 ∷ [])))
unfolding at_cmd print_p write_each
at_cmd-trace s cmd w =
    let w1 = write_each s.hard_port at (flush s.hard_port w) in
    ap (λ v. v.trace)
      (sym (write_each-append s.hard_port cmd (13 ∷ 10 ∷ []) w1)
        ∙ sym (write_each-append s.hard_port at (cmd ++ (13 ∷ 10 ∷ [])) (flush s.hard_port w)))
    ∙ trace-write_each s.hard_port (at ++ (cmd ++ (13 ∷ 10 ∷ []))) (flush s.hard_port w)
