-- ===== src/Persistence/File/Logging.antt =====
-- The record file as a log: how its contents follow one another over any number of entries.
use dread.Base.{
  ℕ, ◌+◌, ◌≤◌, ◌≡◌, refl, sym, ap, subst, ◌∙◌, true, List, [], ◌∷◌, ◌++◌, append_assoc, append-nil,
  length, length-append, arith,
}
use dread.Hardware.{World, Port}
use dread.Persistence.Interface.{Entry, store_one, write_transaction}
use dread.Persistence.File.{
  FileStore, file_persistence, begin_transaction, commit_transaction, write_record,
}
use dread.Persistence.File.Library.{SdLibrary, Appends}
use dread.Persistence.File.Appending.{
  line, lines, Grows, Grows-refl, Grows-trans, Grows-takes, store_one-Grows,
  begin_transaction-Grows,
}

lines-append : (n : List ℕ) (as_ bs : List Entry) → lines n (as_ ++ bs) ≡ lines n as_ ++ lines n bs
unfolding lines
lines-append n [] bs = refl
lines-append n (e ∷ as_) bs =
    ap (λ l. line n e ++ l) (lines-append n as_ bs)
    ∙ sym (append_assoc (line n e) (lines n as_) (lines n bs))

module _ {F H : Type 0} (sd : SdLibrary F H) (logger : Port) (laws : Appends sd) where
  -- The file keeps its name, and as long as the card takes their bytes before it is full or fails, it has
  -- grown by the lines of these entries, and the other files are as they were.
  unfoldable pub Logs : List Entry → FileStore F H → FileStore F H → Type 0
  Logs es s s' =
      (s'.file_name ≡ s.file_name)
      × (length (lines s.file_name es) ≤ laws.takes s.card s.file_name
          → Grows sd logger laws (lines s.file_name es) s s')

  pub Logs-refl : (s : FileStore F H) → Logs [] s s
  unfolding Logs lines
  Logs-refl s = (refl, λ l. Grows-refl sd logger laws s)

  pub Logs-trans :
      (as_ bs : List Entry) (s t u : FileStore F H)
      → Logs as_ s t
      → Logs bs t u
      → Logs (as_ ++ bs) s u
  unfolding Logs
  Logs-trans as_ bs s t u (n, g) (n', g') = (n' ∙ n, both)
    where
      front : List ℕ
      front = lines s.file_name as_

      back : List ℕ
      back = lines s.file_name bs

      both :
          length (lines s.file_name (as_ ++ bs)) ≤ laws.takes s.card s.file_name
          → Grows sd logger laws (lines s.file_name (as_ ++ bs)) s u
      both l =
          let all : length (lines s.file_name (as_ ++ bs)) ≡ length front + length back =
            ap length (lines-append s.file_name as_ bs) ∙ length-append front back in
          let first = g (omega (arith, l, all)) in
          let left = Grows-takes sd logger laws front s t first in
          let fits : length (lines t.file_name bs) ≤ laws.takes t.card t.file_name =
            subst (λ m. length (lines m bs) ≤ laws.takes t.card m) (sym n)
              (omega (arith, l, all, left)) in
          subst (λ x. Grows sd logger laws x s u) (sym (lines-append s.file_name as_ bs))
            (Grows-trans sd logger laws front back s t u first
              (subst (λ m. Grows sd logger laws (lines m bs) t u) n (g' fits)))

  -- The beginning of a transaction is no entry.
  pub begin_transaction-Logs :
      (s : FileStore F H)
      → Logs [] s ((file_persistence sd logger).begin_transaction write_transaction s).1
  unfolding Logs lines file_persistence Grows
  begin_transaction-Logs s = let g = begin_transaction-Grows sd logger laws s in (g.0, λ l. g)

  -- An entry that is stored is a line.
  pub store_one-Logs :
      (e : Entry) (s : FileStore F H) (w : World)
      → ((file_persistence sd logger).begin_transaction write_transaction s).0 ≡ true
      → Logs (e ∷ []) s (store_one (file_persistence sd logger) e (s, w)).0
  unfolding Logs lines file_persistence begin_transaction store_one commit_transaction write_record
  store_one-Logs e s w opened = (
    named,
    λ l.
        let one = sym (append-nil (line s.file_name e)) in
        subst (λ x. Grows sd logger laws x s (store_one (file_persistence sd logger) e (s, w)).0)
          one
          (store_one-Grows sd logger laws e s w opened
            (subst (λ x. length x ≤ laws.takes s.card s.file_name) (sym one) l)),
  )
    where
      named : (store_one (file_persistence sd logger) e (s, w)).0.file_name ≡ s.file_name
      named = rw opened refl
