-- ===== src/Net/Socket/Reading.antt =====
-- What the two loops of `listenMsg` keep of the bytes that they read.
use dread.Base.{
  ℕ, zero, suc, ◌+◌, ◌<◌, ◌≤◌, ◌≡◌, ◌≢◌, refl, subst, ◌∙◌, inl, inr, some, List, [], ◌∷◌, ◌++◌, map,
  append_assoc, u8, get_or, set, take, length, arith, Bool-cases, ℕ_discrete, length-set,
  get_or-set_ne, take-set, some_inj,
}
use mathlib.Core.List.{map-append}
use dread.Hardware.{available, pop_byte, World, Effect, got}
use dread.Hardware.Grown.{Grown, Grown-same, write-Grown, ◌after◌}
use dread.Net.Socket.{
  Listen, next_byte, last_byte, collect, first_byte, await_header, collects_on, awaits_on,
  round_time,
}

-- Before a round of the second loop: the bytes so far are the last that the port gave, and none of
-- them is the footer.
pub record Open (c : Listen) (start : List Effect) (msg : List ℕ) (p : ℕ) (w : World) : Type 0 where
  pub size : length msg ≡ c.size
  pub room : p < c.size
  pub clean : (i : ℕ) → i < p → get_or msg i 0 ≢ c.footer
  pub log : w.trace ≡ start ++ map (got c.socket.port) (take p msg)

-- At its end: only the last byte may be the footer.
pub record Closed (c : Listen) (start : List Effect) (msg : List ℕ) (p : ℕ) (w : World)
    : Type 0 where
  pub size : length msg ≡ c.size
  pub bound : p ≤ c.size
  pub clean : (i : ℕ) → suc i < p → get_or msg i 0 ≢ c.footer
  pub log : w.trace ≡ start ++ map (got c.socket.port) (take p msg)

module _ (c : Listen) (small : c.size < 256) (start : List Effect) where
  Open-unchanged :
      (msg : List ℕ) (p : ℕ) (w w' : World)
      → Open c start msg p w
      → w'.trace ≡ w.trace
      → Closed c start msg p w'
  Open-unchanged msg p w w' o e = record {
    size = o.size;
    bound = omega (arith, o.room);
    clean = λ i l. o.clean i (omega arith);
    log = e ∙ o.log;
  }

  Open-byte :
      (msg : List ℕ) (p b : ℕ) (w w' : World)
      → Open c start msg p w
      → w'.trace ≡ w.trace ++ (got c.socket.port b ∷ [])
      → Closed c start (set msg p b) (suc p) w'
  Open-byte msg p b w w' o e = record {
    size = length-set msg p b ∙ o.size;
    bound = o.room;
    clean = λ i l.
        rw (get_or-set_ne msg p i b 0 (λ (x : p ≡ i). omega arith)) (o.clean i (omega arith));
    log =
        e ∙ rw (o.log, take-set msg p b (omega (arith, o.size, o.room)), map-append, append_assoc);
  }

  next_byte-Closed :
      (msg : List ℕ) (p : ℕ) (w : World)
      → Open c start msg p w
      → let (msg', p', w') = next_byte c msg p w in Closed c start msg' p' w'
  next_byte-Closed msg p w o = go (w.rx c.socket.port ++ w.arrivals w.polls c.socket.port) refl
    where
      go :
          (l : List ℕ)
          → w.rx c.socket.port ++ w.arrivals w.polls c.socket.port ≡ l
          → let (msg', p', w') = next_byte c msg p w in Closed c start msg' p' w'
      go [] e = rw e (Open-unchanged msg p w _ o refl)
      go (b ∷ bs) e =
          let next : u8 (p + 1) ≡ suc p = omega (arith, o.room) in
          rw (e, next) (Open-byte msg p (u8 b) w _ o refl)

  Closed-Open :
      (msg : List ℕ) (p : ℕ) (w w' : World)
      → Closed c start msg p w
      → last_byte c msg p ≢ c.footer
      → p < c.size
      → w'.trace ≡ w.trace
      → Open c start msg p w'
  Closed-Open msg p w w' o n l e = record {
    size = o.size;
    room = l;
    clean = λ i li. before p o n i li;
    log = e ∙ o.log;
  }
    where
      before :
          (p : ℕ)
          → Closed c start msg p w
          → last_byte c msg p ≢ c.footer
          → (i : ℕ) → i < p
          → get_or msg i 0 ≢ c.footer
      before zero o n i li = absurd (omega arith)
      before (suc p) o n i li = elim (ℕ_discrete i p) [
        | yes e ↦ rw e n
        | no m ↦ o.clean i (omega arith)
      ]

  pub collect-Closed :
      (fuel : ℕ) (msg : List ℕ) (p : ℕ) (w : World) {r : List ℕ × ℕ × ℕ × World}
      → Open c start msg p w
      → collect fuel c msg p w ≡ some r
      → Closed c start r.0 r.1 r.3
  unfolding collect
  collect-Closed zero msg p w o h = cc
  collect-Closed (suc fuel) msg p w {r} o h = elim (Bool-cases (collects_on c nb.0 nb.1 rt.0)) [
    | inl on ↦
        collect-Closed fuel nb.0 nb.1 rt.1
          (Closed-Open nb.0 nb.1 nb.2 rt.1 closed (ground (arith, on)) (ground (arith, on)) refl)
          (rw on at h)
    | inr off ↦
        let e : some (nb.0, nb.1, rt.0, rt.1) ≡ some r = rw off at h in
        subst (λ q. Closed c start q.0 q.1 q.3) (some_inj e) done
  ]
    where
      nb : List ℕ × ℕ × World
      nb = next_byte c msg p w

      rt : ℕ × World
      rt = round_time c nb.2

      closed : Closed c start nb.0 nb.1 nb.2
      closed = next_byte-Closed msg p w o

      done : Closed c start nb.0 nb.1 rt.1
      done = record {
        size = closed.size;
        bound = closed.bound;
        clean = closed.clean;
        log = closed.log;
      }

pub await_header-length :
    (fuel : ℕ) (c : Listen) (msg : List ℕ) (w : World) {r : List ℕ × World}
    → await_header fuel c msg w ≡ some r
    → length r.0 ≡ length msg
unfolding await_header
await_header-length zero c msg w h = cc
await_header-length (suc fuel) c msg w {r} h = elim (Bool-cases (awaits_on c fb.0 rt.0)) [
  | inl on ↦ await_header-length fuel c fb.0 rt.1 (rw on at h) ∙ same
  | inr off ↦
      let e : some (fb.0, rt.1) ≡ some r = rw off at h in
      subst (λ q. length q.0 ≡ length msg) (some_inj e) same
]
  where
    fb : List ℕ × World
    fb = first_byte c msg w

    rt : ℕ × World
    rt = round_time c fb.1

    same : length fb.0 ≡ length msg
    same = go (w.rx c.socket.port ++ w.arrivals w.polls c.socket.port) refl
      where
        go :
            (l : List ℕ)
            → w.rx c.socket.port ++ w.arrivals w.polls c.socket.port ≡ l
            → length (first_byte c msg w).0 ≡ length msg
        go [] e = rw e
        go (b ∷ bs) e = rw e (length-set msg 0 (u8 b))

-- The first loop adds to the trace.
first_byte-Grown : (c : Listen) (msg : List ℕ) (w : World) → Grown w (first_byte c msg w).1
first_byte-Grown c msg w = go (w.rx c.socket.port ++ w.arrivals w.polls c.socket.port) refl
  where
    go :
        (l : List ℕ)
        → w.rx c.socket.port ++ w.arrivals w.polls c.socket.port ≡ l
        → Grown w (first_byte c msg w).1
    go [] e = rw e (Grown-same w _ refl)
    go (b ∷ bs) e =
        let v = (pop_byte c.socket.port (available c.socket.port w).1 (b ∷ bs)).1 in
        rw e (
          write-Grown c.socket.logger (u8 b) v
          after record { more = got c.socket.port (u8 b) ∷ []; grown = refl })

pub await_header-Grown :
    (fuel : ℕ) (c : Listen) (msg : List ℕ) (w : World) {r : List ℕ × World}
    → await_header fuel c msg w ≡ some r
    → Grown w r.1
unfolding await_header
await_header-Grown zero c msg w h = cc
await_header-Grown (suc fuel) c msg w {r} h =
    let fb = first_byte c msg w in
    let rt = round_time c fb.1 in
    let here : Grown w rt.1 = Grown-same fb.1 rt.1 refl after first_byte-Grown c msg w in
    elim (Bool-cases (awaits_on c fb.0 rt.0)) [
      | inl on ↦ await_header-Grown fuel c fb.0 rt.1 (rw on at h) after here
      | inr off ↦
          let e : some (fb.0, rt.1) ≡ some r = rw off at h in
          subst (λ q. Grown w q.1) (some_inj e) here
    ]
