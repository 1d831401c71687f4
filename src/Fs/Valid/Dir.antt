-- ===== src/Fs/Valid/Dir.antt =====
-- The root directory of fs/state.c: what its searches find, and that filling and clearing an entry
-- keeps it well-formed.
use native.Mathlib.Decide.{dec_lt, ℕ_discrete}
use ex.Common.{
  ℕ, ◌<◌, ◌≡◌, ◌≢◌, ◌⊎◌, inl, inr, subst, ◌∙◌, true, false, arith, length, sym, ap, Bool-cases,
  update,
}
use ex.Common.Int.{pos, minus_one, pos_part, ==ℤ_iff}
use ex.Common.First.{IsFirst}
use ex.Fs.State.Types.{TfsParams, AllocationState, free, taken, max_file_name}
use ex.Fs.State.Memory.{Memory, Text, IsText, strncmp_eq}
use ex.Fs.State.Memory.Compare.{strcmp_eq-strncmp_eq, strcmp_eq_empty}
use ex.Fs.State.Dir.{d_name, is_named, is_unused, has_name, clear_entry}
use ex.Fs.Valid.{entry_inumber, entries_of, InUse, EntryOk, DirOk}
use ex.Fs.Valid.Entries.{
  SameEntry, entry_inumber-same, is_named-same, byte-same, Rewritten, clear_entry-Rewritten,
  clear_entry-name,
}

pub named_used :
    (s : Text) (m : Memory) (e : ℕ) → is_named 0 s m e ≡ true → entry_inumber m e ≢ minus_one
named_used s m e h q = ground (arith, ==ℤ_iff (entry_inumber m e) minus_one)

pub unused_of_eq : (m : Memory) (e : ℕ) → entry_inumber m e ≡ minus_one → is_unused 0 m e ≡ true
unused_of_eq m e q = (==ℤ_iff (entry_inumber m e) minus_one).1 q

pub eq_of_unused : (m : Memory) (e : ℕ) → is_unused 0 m e ≡ true → entry_inumber m e ≡ minus_one
eq_of_unused m e q = (==ℤ_iff (entry_inumber m e) minus_one).0 q

pub used_of_ne : (m : Memory) (e : ℕ) → is_unused 0 m e ≡ false → entry_inumber m e ≢ minus_one
used_of_ne m e q h = cc (unused_of_eq m e h)

pub named_text :
    (s : Text) (m : Memory) (e : ℕ)
    → is_named 0 s m e ≡ true
    → strncmp_eq m (d_name 0 e) s max_file_name ≡ true
named_text s m e h = ground arith

pub InUse-taken :
    {p : TfsParams} {ns : ℕ → AllocationState} {i : ℕ} (k : ℕ)
    → InUse p ns i
    → InUse p (update ns k taken) i
InUse-taken k u = record { ne_root = u.ne_root; below = u.below; is_taken = ground arith }

pub InUse-free :
    {p : TfsParams} {ns : ℕ → AllocationState} {i : ℕ} (k : ℕ)
    → InUse p ns i
    → i ≢ k
    → InUse p (update ns k free) i
InUse-free k u ne = record { ne_root = u.ne_root; below = u.below; is_taken = ground arith }

module _ {p : TfsParams} {ns : ℕ → AllocationState} {m : Memory} (v : DirOk p ns m) where
  -- Only the states of the inodes change.
  DirOk-states :
      (ns' : ℕ → AllocationState)
      → ((e : ℕ)
          → e < entries_of p
          → entry_inumber m e ≢ minus_one
          → InUse p ns' (pos_part (entry_inumber m e)))
      → DirOk p ns' m
  DirOk-states ns' h = record {
    entry = λ e lt u.
        let k = v.entry e lt u in record { number = k.number; in_use = h e lt u; ends = k.ends };
    numbers_apart = v.numbers_apart;
    names_apart = v.names_apart;
    mark = v.mark;
    fresh = v.fresh;
    cleared = v.cleared;
  }

  -- An inode is taken.
  pub DirOk-take : (k : ℕ) → DirOk p (update ns k taken) m
  DirOk-take k = DirOk-states (update ns k taken) (λ e lt u. InUse-taken k (v.entry e lt u).in_use)

  -- An inode that no entry refers to is freed.
  pub DirOk-free :
      (k : ℕ)
      → ((e : ℕ) → e < entries_of p → entry_inumber m e ≢ pos k)
      → DirOk p (update ns k free) m
  DirOk-free k h = DirOk-states (update ns k free) (λ e lt u.
      let o = v.entry e lt u in InUse-free k o.in_use (λ q. h e lt (o.number ∙ ap pos q)))

  -- `clear_dir_entry` finds the entry that `find_in_dir` has found.
  pub IsFirst-has_name :
      (s : Text) (e : ℕ)
      → IsText s
      → 0 < length s
      → IsFirst (is_named 0 s m) (entries_of p) e
      → IsFirst (has_name 0 s m) (entries_of p) e
  IsFirst-has_name s e t l f = record {
    below = f.below;
    passes =
        strcmp_eq-strncmp_eq m (d_name 0 e) s 39 t (v.entry e f.below used).ends
        ∙ named_text s m e f.passes;
    before = λ d lt. earlier d lt (Bool-cases (is_unused 0 m d));
  }
    where
      used : entry_inumber m e ≢ minus_one
      used = named_used s m e f.passes

      below_mark : e < v.mark
      below_mark = elim (dec_lt e v.mark) [
        | yes lt ↦ lt
        | no ge ↦ absurd (used (v.fresh e f.below (omega arith)))
      ]

      earlier :
          (d : ℕ)
          → d < e
          → (is_unused 0 m d ≡ true) ⊎ (is_unused 0 m d ≡ false)
          → has_name 0 s m d ≡ false
      earlier d lt (inl q) =
          strcmp_eq_empty m (d_name 0 d) s t l
            (v.cleared d (omega (arith, below_mark)) (omega (arith, f.below)) (eq_of_unused m d q))
      earlier d lt (inr q) =
          strcmp_eq-strncmp_eq m (d_name 0 d) s 39 t
            (v.entry d (omega (arith, f.below)) (used_of_ne m d q)).ends
          ∙ ground (arith, f.before d lt)

  -- Clearing an entry.
  pub DirOk-clear : (i : ℕ) → DirOk p ns (clear_entry 0 i m)
  DirOk-clear i = record {
    entry = λ e lt u. let ne = λ (q : e ≡ i). u (gone e q) in entry' e lt u ne;
    numbers_apart = λ d e ld le u q. apart d e ld le u q;
    names_apart = λ d e s t ld le pd pe.
        let nd = λ (q : d ≡ i). named_used s m' d pd (gone d q) in
        let ne = λ (q : e ≡ i). named_used s m' e pe (gone e q) in
        v.names_apart d e s t ld le (sym (named d nd s) ∙ pd) (sym (named e ne s) ∙ pe);
    mark = v.mark;
    fresh =
        λ e lt h. elim (ℕ_discrete e i) [ yes q ↦ gone e q | no ne ↦ number e ne ∙ v.fresh e lt h ];
    cleared = λ e lm lt h. elim (ℕ_discrete e i) [
      | yes q ↦ subst (λ k. m' (d_name 0 k) ≡ 0) (sym q) (clear_entry-name m i)
      | no ne ↦ first_byte e ne ∙ v.cleared e lm lt (sym (number e ne) ∙ h)
    ];
  }
    where
      m' : Memory
      m' = clear_entry 0 i m

      w : Rewritten m (clear_entry 0 i m) i minus_one
      w = clear_entry-Rewritten m i

      gone : (e : ℕ) → e ≡ i → entry_inumber m' e ≡ minus_one
      gone e q = subst (λ k. entry_inumber m' k ≡ minus_one) (sym q) w.number

      number : (e : ℕ) → e ≢ i → entry_inumber m' e ≡ entry_inumber m e
      number e ne = entry_inumber-same m m' e (w.others e ne)

      named : (e : ℕ) → e ≢ i → (s : Text) → is_named 0 s m' e ≡ is_named 0 s m e
      named e ne s = is_named-same m m' e (w.others e ne) s

      first_byte : (e : ℕ) → e ≢ i → m' (d_name 0 e) ≡ m (d_name 0 e)
      first_byte e ne = w.others e ne (d_name 0 e) (omega arith) (omega arith)

      entry' :
          (e : ℕ) → e < entries_of p → entry_inumber m' e ≢ minus_one → e ≢ i → EntryOk p ns m' e
      entry' e lt u ne =
          let o = v.entry e lt (λ q. u (number e ne ∙ q)) in
          record {
            number = rw (number e ne) o.number;
            in_use = rw (number e ne) o.in_use;
            ends = byte-same m m' e (w.others e ne) 39 (omega arith) ∙ o.ends;
          }

      apart :
          (d e : ℕ)
          → d < entries_of p
          → e < entries_of p
          → entry_inumber m' d ≢ minus_one
          → entry_inumber m' d ≡ entry_inumber m' e
          → d ≡ e
      apart d e ld le u q =
          let nd = λ (r : d ≡ i). u (gone d r) in
          let ne = λ (r : e ≡ i). u (q ∙ gone e r) in
          v.numbers_apart d e ld le (λ r. u (number d nd ∙ r)) (sym (number d nd) ∙ q ∙ number e ne)

-- A write behind the entries leaves the directory alone.
pub DirOk-Agree :
    {p : TfsParams} {ns : ℕ → AllocationState} {m : Memory} (m' : Memory)
    → DirOk p ns m
    → ((q : ℕ) → q < p.block_size → m' q ≡ m q)
    → DirOk p ns m'
DirOk-Agree {p} {ns} {m} m' v h = record {
  entry = λ e lt u.
      let o = v.entry e lt (λ q. u (number e lt ∙ q)) in
      record {
        number = rw (number e lt) o.number;
        in_use = rw (number e lt) o.in_use;
        ends = byte-same m m' e (same e lt) 39 (omega arith) ∙ o.ends;
      };
  numbers_apart = λ d e ld le u q.
      v.numbers_apart d e ld le (λ r. u (number d ld ∙ r)) (sym (number d ld) ∙ q ∙ number e le);
  names_apart = λ d e s t ld le pd pe.
      v.names_apart d e s t ld le (sym (is_named-same m m' d (same d ld) s) ∙ pd)
        (sym (is_named-same m m' e (same e le) s) ∙ pe);
  mark = v.mark;
  fresh = λ e lt le. number e lt ∙ v.fresh e lt le;
  cleared = λ e lm lt q.
      same e lt (d_name 0 e) (omega arith) (omega arith)
      ∙ v.cleared e lm lt (sym (number e lt) ∙ q);
}
  where
    same : (e : ℕ) → e < entries_of p → SameEntry m m' e
    same e lt q l u = h q (omega arith)

    number : (e : ℕ) → e < entries_of p → entry_inumber m' e ≡ entry_inumber m e
    number e lt = entry_inumber-same m m' e (same e lt)
