-- ===== src/Net/Socket/Collecting.antt =====
-- The second loop of `listenMsg`, while the bytes of a message come in time.
use dread.Base.{
  ℕ, zero, suc, ◌+◌, ◌<◌, ◌≤◌, ◌≡◌, ◌≢◌, refl, sym, ap, ap₂, ◌∙◌, true, false, Option, none, some,
  List, [], ◌∷◌, ◌++◌, u8, u32, get_or, set, take, drop, subst, length, replicate, arith,
  append_assoc, length-set, get_or-set_self, take-set, take-length,
}
use dread.Hardware.{World, Port}
use dread.Net.Socket.{Listen, collect, collects_on, last_byte, int_elapsed}
use dread.Net.Socket.Rounds.{second_round, second_round-clock, collect-stop, collect-next}
use dread.Net.Socket.Arrivals.{gives, future, Reads, put, moved, second_round-Reads}

-- The last byte is the footer, and no other byte is.
unfoldable pub EndsIn : ℕ → List ℕ → Type 0
EndsIn f [] = ⊥
EndsIn f (x ∷ []) = x ≡ f
EndsIn f (x ∷ y ∷ ys) = (x ≢ f) × EndsIn f (y ∷ ys)

-- The next `k` readings of the clock come before the timeout.
unfoldable pub InTime : Listen → World → ℕ → Type 0
InTime c w k = (n : ℕ) → n < k → int_elapsed c.init_time (u32 (w.clock (w.ticks + n))) < c.timeout

pub first : {a b : ℕ} {xs ys : List ℕ} → a ∷ xs ≡ b ∷ ys → a ≡ b
first e = ap (λ l. get_or l 0 0) e

pub EndsIn-last : (f n : ℕ) (xs : List ℕ) → EndsIn f xs → suc n ≡ length xs → get_or xs n 0 ≡ f
unfolding EndsIn
EndsIn-last f n [] h e = absurd h
EndsIn-last f zero (x ∷ []) h e = h
EndsIn-last f (suc n) (x ∷ []) h e = absurd (omega arith)
EndsIn-last f zero (x ∷ y ∷ ys) h e = absurd (omega arith)
EndsIn-last f (suc n) (x ∷ y ∷ ys) h e = EndsIn-last f n (y ∷ ys) h.1 (omega arith)

-- Any number of bytes that are not the footer, and the footer.
pub EndsIn-replicate : (f n b : ℕ) → b ≢ f → EndsIn f (replicate n b ++ (f ∷ []))
unfolding EndsIn
EndsIn-replicate f zero b h = refl
EndsIn-replicate f (suc zero) b h = (h, refl)
EndsIn-replicate f (suc (suc n)) b h = (h, EndsIn-replicate f (suc n) b h)

-- Without a round nothing comes.
too_late :
    (f : ℕ) (ahead : List ℕ) (p : Port) (w : World) → EndsIn f ahead → future 0 p w ≡ ahead → ⊥
unfolding EndsIn future gives
too_late f [] p w ends e = ends
too_late f (a ∷ ahead) p w ends e = let z : 0 ≡ suc (length ahead) = ap length e in omega (arith, z)

pub InTime-now :
    (c : Listen) (w : World) (k : ℕ)
    → InTime c w (suc k)
    → int_elapsed c.init_time (u32 (w.clock w.ticks)) < c.timeout
unfolding InTime
InTime-now c w k h = let z : w.ticks + 0 ≡ w.ticks = omega arith in rw z at (h 0 (omega arith))

pub InTime-later :
    (c : Listen) (w w' : World) (k : ℕ)
    → w'.clock ≡ w.clock
    → w'.ticks ≡ w.ticks + 1
    → InTime c w (suc k)
    → InTime c w' k
unfolding InTime
InTime-later c w w' k e e' h n l =
    let z : (w.ticks + 1) + n ≡ w.ticks + suc n = omega arith in
    rw (e, e', z) (h (suc n) (omega arith))

-- What the second loop does with the rest `ahead` of a message, from the place `p` on.
abbrev Collects : Listen → ℕ → List ℕ → ℕ → World → List ℕ → Type 0
Collects c fuel msg p w ahead =
    (r : List ℕ × ℕ × ℕ × World) × (collect fuel c msg p w ≡ some r)
    × (r.0 ≡ take p msg ++ ahead)
    × (r.1 ≡ c.size)

goes_on :
    (c : Listen) (msg : List ℕ) (p time : ℕ)
    → last_byte c msg p ≢ c.footer
    → p < c.size
    → time < c.timeout
    → collects_on c msg p time ≡ true
goes_on c msg p time n l t = ground arith

stops :
    (c : Listen) (msg : List ℕ) (p time : ℕ)
    → last_byte c msg p ≡ c.footer
    → collects_on c msg p time ≡ false
stops c msg p time e = ground arith

module _ (c : Listen) (small : c.size < 256) where
  -- What is known of the second loop before a round: the place, the bytes that come, and the time.
  pub record Expecting (k : ℕ) (msg : List ℕ) (p : ℕ) (w : World) (ahead : List ℕ) : Type 0 where
    pub size : length msg ≡ c.size
    pub rest : p + length ahead ≡ c.size
    pub clean : last_byte c msg p ≢ c.footer
    pub ends : EndsIn c.footer ahead
    pub come : future k c.socket.port w ≡ ahead

  module _ (k fuel : ℕ) (msg : List ℕ) (p : ℕ) (w : World) (time : InTime c w (suc k)) where
    abbrev s : List ℕ × ℕ × ℕ × World
    s = second_round c msg p w

    in_time : s.2 < c.timeout
    in_time = let (now, _, _) = second_round-clock c msg p w in rw now (InTime-now c w k time)

    next :
        (ahead : List ℕ)
        → last_byte c s.0 s.1 ≢ c.footer
        → s.1 < c.size
        → Collects c fuel s.0 s.1 s.3 ahead
        → (r : List ℕ × ℕ × ℕ × World) × (collect (suc fuel) c msg p w ≡ some r)
          × (r.0 ≡ take s.1 s.0 ++ ahead)
          × (r.1 ≡ c.size)
    next ahead n l (r, e, m, q) =
        (r, collect-next c msg p w fuel (goes_on c s.0 s.1 s.2 n l in_time) ∙ e, m, q)

    module _
        (further : (ahead : List ℕ)
          → Expecting k s.0 s.1 s.3 ahead
          → Collects c fuel s.0 s.1 s.3 ahead) where
      -- A round that finds no byte.
      pause :
          (ahead : List ℕ)
          → Expecting (suc k) msg p w ahead
          → future (suc k) c.socket.port w ≡ future k c.socket.port s.3
          → s.0 ≡ msg
          → s.1 ≡ p
          → 0 < length ahead
          → Collects c (suc fuel) msg p w ahead
      pause ahead x reads m q some_ =
          let same : last_byte c s.0 s.1 ≡ last_byte c msg p = ap₂ (last_byte c) m q in
          let clean : last_byte c s.0 s.1 ≢ c.footer = λ e. x.clean (sym same ∙ e) in
          let (r, e, a, n) = next ahead clean (omega (arith, q, x.rest)) (
            further ahead (record {
              size = ap length m ∙ x.size;
              rest = omega (arith, q, x.rest);
              clean = clean;
              ends = x.ends;
              come = sym reads ∙ x.come;
            })) in
          (r, e, a ∙ ap₂ (λ i l. take i l ++ ahead) q m, n)

      module _ (b : ℕ) (m : s.0 ≡ set msg p b) (q : s.1 ≡ suc p) (size : length msg ≡ c.size)
          (room : p < c.size) where
        length-s : length s.0 ≡ c.size
        length-s = ap length m ∙ length-set msg p b ∙ size

        last-s : last_byte c s.0 s.1 ≡ b
        last-s = ap₂ (last_byte c) m q ∙ get_or-set_self msg p b 0 (omega (arith, size, room))

        take-s : take s.1 s.0 ≡ take p msg ++ (b ∷ [])
        take-s = ap₂ take q m ∙ take-set msg p b (omega (arith, size, room))

        -- The round that reads the footer.
        footer : b ≡ c.footer → suc p ≡ c.size → Collects c (suc fuel) msg p w (b ∷ [])
        footer e l = (
          s,
          collect-stop c msg p w fuel (stops c s.0 s.1 s.2 (last-s ∙ e)),
          sym (take-length s.0) ∙ ap (λ i. take i s.0) (length-s ∙ sym l ∙ sym q) ∙ take-s,
          q ∙ l,
        )

        -- A round that reads another byte.
        other :
            (ahead : List ℕ)
            → b ≢ c.footer
            → suc p + length ahead ≡ c.size
            → 0 < length ahead
            → EndsIn c.footer ahead
            → future k c.socket.port s.3 ≡ ahead
            → Collects c (suc fuel) msg p w (b ∷ ahead)
        other ahead n rest some_ ends come =
            let clean : last_byte c s.0 s.1 ≢ c.footer = λ e. n (sym last-s ∙ e) in
            let (r, e, a, z) = next ahead clean (omega (arith, q, rest)) (
              further ahead (record {
                size = length-s;
                rest = omega (arith, q, rest);
                clean = clean;
                ends = ends;
                come = come;
              })) in
            (r, e, a ∙ ap (λ l. l ++ ahead) take-s ∙ append_assoc (take p msg) (b ∷ []) ahead, z)

      round :
          (ahead : List ℕ) → Expecting (suc k) msg p w ahead → Collects c (suc fuel) msg p w ahead
      unfolding Reads EndsIn
      round ahead x = go ahead x (second_round-Reads c msg p w)
        where
          go :
              (ahead : List ℕ)
              → Expecting (suc k) msg p w ahead
              → (o : Option ℕ) × Reads c.socket.port w s.3 o
                × (s.0 ≡ put msg p o)
                × (s.1 ≡ moved p o)
              → Collects c (suc fuel) msg p w ahead
          go [] x o = absurd x.ends
          go (a ∷ ahead) x (none, reads, m, q) = pause (a ∷ ahead) x (reads k) m q (omega arith)
          go (a ∷ []) x (some b, reads, m, q) =
              let same : b ≡ a = first (sym (reads k) ∙ x.come) in
              let place : u8 (p + 1) ≡ suc p = omega (arith, x.rest) in
              subst (λ y. Collects c (suc fuel) msg p w (y ∷ [])) same
                (footer b m (q ∙ place) x.size (omega (arith, x.rest)) (same ∙ x.ends)
                  (omega (arith, x.rest)))
          go (a ∷ a' ∷ ahead) x (some b, reads, m, q) =
              let come : b ∷ future k c.socket.port s.3 ≡ a ∷ a' ∷ ahead = sym (reads k) ∙ x.come in
              let place : u8 (p + 1) ≡ suc p = omega (arith, x.rest) in
              subst (λ y. Collects c (suc fuel) msg p w (y ∷ a' ∷ ahead)) (first come)
                (other b m (q ∙ place) x.size (omega (arith, x.rest)) (a' ∷ ahead)
                  (λ e. x.ends.0 (sym (first come) ∙ e)) (omega (arith, x.rest)) (omega arith)
                  x.ends.1 (ap (drop 1) come))

  pub collect-frame :
      (k fuel : ℕ) (msg : List ℕ) (p : ℕ) (w : World) (ahead : List ℕ)
      → k ≤ fuel
      → Expecting k msg p w ahead
      → InTime c w k
      → Collects c fuel msg p w ahead
  collect-frame zero fuel msg p w ahead l x t =
      absurd (too_late c.footer ahead c.socket.port w x.ends x.come)
  collect-frame (suc k) zero msg p w ahead l x t = absurd (omega arith)
  collect-frame (suc k) (suc fuel) msg p w ahead l x t =
      let clk = second_round-clock c msg p w in
      round k fuel msg p w t
        (λ ahead' x'.
          collect-frame k fuel _ _ _ ahead' (omega arith) x' (InTime-later c w _ k clk.1 clk.2 t))
        ahead x
