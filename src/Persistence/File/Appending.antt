-- ===== src/Persistence/File/Appending.antt =====
-- What becomes of the records that are written to a file.
use dread.Base.{
  u8, take, ℕ, ◌+◌, ◌≤◌, length, length-append, arith, ◌≡◌, ◌≢◌, refl, sym, ap, subst, ◌∙◌, true,
  List, [], ◌∷◌, ◌++◌, append_assoc, append-nil,
}
use dread.Hardware.{World, Port}
use dread.Persistence.Interface.{Entry, store_one, store_all, write_transaction}
use dread.Persistence.File.Library.{SdLibrary, Appends}
use dread.Persistence.File.{
  FileStore, record_parts, write_parts, write_record, begin_transaction, commit_transaction,
  file_persistence, sd_ss,
}

abbrev pub concat : List (List ℕ) → List ℕ
concat [] = []
concat (b ∷ bs) = b ++ concat bs

-- The line of a record: the first three bytes of the file's name, the record's lowest byte, the date and
-- the three bytes again, with tabs between them and a carriage return and line feed at the end.
unfoldable pub line : List ℕ → Entry → List ℕ
line name (r, d, n) =
    take 3 name
    ++ (b'\t' ∷ u8 r ∷ b'\t' ∷ (take n d ++ (b'\t' ∷ (take 3 name ++ (b'\r' ∷ b'\n' ∷ [])))))

unfoldable pub lines : List ℕ → List Entry → List ℕ
lines name [] = []
lines name (e ∷ es) = line name e ++ lines name es

module _ {F H : Type 0} (sd : SdLibrary F H) (logger : Port) (laws : Appends sd) where
  -- How the bytes of a file grow, and what the card still takes then; the other files stay.
  unfoldable pub Written : List ℕ → List ℕ → F → F → Type 0
  Written n bs f f' =
      (laws.contents f' n ≡ laws.contents f n ++ bs)
      × (laws.takes f n ≤ laws.takes f' n + length bs)
      × ((m : List ℕ) → laws.key m ≢ laws.key n → laws.contents f' m ≡ laws.contents f m)

  -- What changes neither the contents nor what the card takes.
  Untouched : F → F → Type 0
  Untouched f f' =
      ((m : List ℕ) → laws.contents f' m ≡ laws.contents f m)
      × ((m : List ℕ) → laws.takes f m ≤ laws.takes f' m)

  Untouched-Written : (n : List ℕ) (f g : F) → Untouched f g → Written n [] f g
  unfolding Untouched Written
  Untouched-Written n f g (c, t) =
      (c n ∙ sym (append-nil _), (let l = t n in omega (arith, l)), λ m ne. c m)

  Written-after :
      (n as_ bs : List ℕ) (f g h : F)
      → Written n as_ f g
      → Written n bs g h
      → Written n (as_ ++ bs) f h
  unfolding Written
  Written-after n as_ bs f g h (c, t, o) (c', t', o') = (
    c' ∙ (ap (λ x. x ++ bs) c ∙ append_assoc (laws.contents f n) as_ bs),
    omega (arith, t, t', length-append as_ bs),
    λ m ne. o' m ne ∙ o m ne,
  )

  Written-between :
      (n bs : List ℕ) (f g h k : F)
      → Untouched f g
      → Written n bs g h
      → Untouched h k
      → Written n bs f k
  unfolding Written Untouched
  Written-between n bs f g h k (c, t) (d, u, o) (c', t') = (
    c' n ∙ (d ∙ ap (λ x. x ++ bs) (c n)),
    (let a = t n in let b = t' n in omega (arith, a, b, u)),
    λ m ne. c' m ∙ (o m ne ∙ c m),
  )

  write_parts-Written :
      (bs : List (List ℕ)) (n : List ℕ) (h : H) (f : F)
      → laws.Writes h f n
      → length (concat bs) ≤ laws.takes f n
      → Written n (concat bs) f (write_parts sd logger bs (h, f)).1
  unfolding write_parts Untouched Written
  write_parts-Written [] n h f v l = Untouched-Written n f f ((λ m. refl), λ m. omega arith)
  write_parts-Written (b ∷ bs) n h f v l =
      let (h1, f1) = sd.write b h f in
      let all = length-append b (concat bs) in
      let fits : length b ≤ laws.takes f n = omega (arith, l, all) in
      let left = laws.write-takes b h f n v fits in
      Written-after n b (concat bs) f f1 (write_parts sd logger bs (h1, f1)).1
        (laws.write-contents b h f n v fits, left, λ m ne. laws.write-others b h f n m v fits ne)
        (write_parts-Written bs n h1 f1 (laws.write-Writes b h f n v fits)
          (omega (arith, l, all, left)))

  opened-Untouched :
      (n : List ℕ) (f : F) → Untouched f (sd.open_file n sd.file_write (sd.begin sd_ss f).1).1
  unfolding Untouched
  opened-Untouched n f = (
    (λ m. laws.open-contents n (sd.begin sd_ss f).1 m ∙ laws.begin-contents sd_ss f m),
    λ m.
        let a = laws.open-takes n (sd.begin sd_ss f).1 m in
        let b = laws.begin-takes sd_ss f m in omega (arith, a, b),
  )

  closed-Untouched :
      (n : List ℕ) (h h' : H) (f : F)
      → Untouched f (sd.close h' (sd.exists_file n (sd.close h f).1).1).1
  unfolding Untouched
  closed-Untouched n h h' f =
      let g = (sd.close h f).1 in
      let k = (sd.exists_file n g).1 in
      (
        (λ m.
            laws.close-contents h' k m ∙ (laws.exists-contents n g m ∙ laws.close-contents h f m)),
        λ m.
            let a = laws.close-takes h' k m in
            let b = laws.exists-takes n g m in
            let c = laws.close-takes h f m in omega (arith, a, b, c),
      )

  -- How one state of the store follows another: bytes at the end of the file with the store's name,
  -- which stays, and the other files as they were.
  unfoldable pub Grows : List ℕ → FileStore F H → FileStore F H → Type 0
  Grows bs s s' = (s'.file_name ≡ s.file_name) × Written s.file_name bs s.card s'.card

  pub store_one-Grows :
      (e : Entry) (s : FileStore F H) (w : World)
      → sd.is_open (sd.open_file s.file_name sd.file_write (sd.begin sd_ss s.card).1).0 ≡ true
      → length (line s.file_name e) ≤ laws.takes s.card s.file_name
      → Grows (line s.file_name e) s (store_one (file_persistence sd logger) e (s, w)).0
  unfolding Grows store_one file_persistence begin_transaction commit_transaction write_record line
      Untouched
  store_one-Grows (r, d, n) s w opens fits =
      let f1 = (sd.begin sd_ss s.card).1 in
      let (h2, f2) = sd.open_file s.file_name sd.file_write f1 in
      let parts = record_parts s.file_name r d n in
      let (h3, f3) = write_parts sd logger parts (h2, f2) in
      let before = opened-Untouched s.file_name s.card in
      let room : length (concat parts) ≤ laws.takes f2 s.file_name =
        let b = before.1 s.file_name in omega (arith, fits, b) in
      let h4 = (sd.close h3 f3).0 in
      rw opens (
        refl,
        Written-between s.file_name (concat parts) s.card f2 f3 _ before
            (write_parts-Written parts s.file_name h2 f2 (laws.open-Writes s.file_name f1 opens)
              room)
            (closed-Untouched s.file_name h3 h4 f3),
      )

  -- The beginning of a transaction writes nothing.
  pub begin_transaction-Grows :
      (s : FileStore F H) → Grows [] s (begin_transaction sd logger write_transaction s).1
  unfolding Grows begin_transaction
  begin_transaction-Grows s =
      (refl, Untouched-Written s.file_name s.card _ (opened-Untouched s.file_name s.card))

  pub Grows-refl : (s : FileStore F H) → Grows [] s s
  unfolding Grows Untouched
  Grows-refl s = (refl, Untouched-Written s.file_name s.card s.card ((λ m. refl), λ m. omega arith))

  pub Grows-trans :
      (as_ bs : List ℕ) (s t u : FileStore F H)
      → Grows as_ s t
      → Grows bs t u
      → Grows (as_ ++ bs) s u
  unfolding Grows
  Grows-trans as_ bs s t u (n, g) (n', g') = (
    n' ∙ n,
    Written-after s.file_name as_ bs s.card t.card u.card g
        (subst (λ m. Written m bs t.card u.card) n g'),
  )

  -- What the card still takes after these bytes.
  pub Grows-takes :
      (bs : List ℕ) (s s' : FileStore F H)
      → Grows bs s s'
      → laws.takes s.card s.file_name ≤ laws.takes s'.card s.file_name + length bs
  unfolding Grows Written
  Grows-takes bs s s' g = g.1.1

  -- If the library can open the file for writing, and the card takes the bytes of all lines before it is
  -- full or fails, storing any sequence of records through the interface puts exactly their lines, in
  -- order, at the end of the file of the store's name; the name and all files with another entry in
  -- the directory stay as they were.
  pub store_all-Grows :
      (es : List Entry) (s : FileStore F H) (w : World)
      → ((f : F) → sd.is_open (sd.open_file s.file_name sd.file_write f).0 ≡ true)
      → length (lines s.file_name es) ≤ laws.takes s.card s.file_name
      → Grows (lines s.file_name es) s (store_all (file_persistence sd logger) es (s, w)).0
  unfolding store_all lines Grows
  store_all-Grows [] s w opens fits = Grows-refl s
  store_all-Grows (e ∷ es) s w opens fits =
      let r = store_one (file_persistence sd logger) e (s, w) in
      let all = length-append (line s.file_name e) (lines s.file_name es) in
      let g = store_one-Grows e s w (opens (sd.begin sd_ss s.card).1) (omega (arith, fits, all)) in
      let name = g.0 in
      let left = Grows-takes (line s.file_name e) s r.0 g in
      let opens' =
        subst (λ n. (f : F) → sd.is_open (sd.open_file n sd.file_write f).0 ≡ true) (sym name)
          opens in
      let fits' : length (lines r.0.file_name es) ≤ laws.takes r.0.card r.0.file_name =
        subst (λ n. length (lines n es) ≤ laws.takes r.0.card n) (sym name)
          (omega (arith, fits, all, left)) in
      Grows-trans (line s.file_name e) (lines s.file_name es) s r.0
        (store_all (file_persistence sd logger) es r).0 g
        (subst (λ n. Grows (lines n es) r.0 (store_all (file_persistence sd logger) es r).0) name
          (store_all-Grows es r.0 r.1 opens' fits'))
