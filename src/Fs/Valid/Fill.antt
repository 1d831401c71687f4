-- ===== src/Fs/Valid/Fill.antt =====
-- The root directory of fs/state.c stays well-formed when `add_dir_entry` fills its first unused
-- entry with a new name.
use native.Mathlib.Decide.{dec_lt, ℕ_discrete}
use ex.Common.{
  ℕ, ◌+◌, ◌^◌, ◌≤◌, ◌<◌, ◌≡◌, ◌≢◌, ◌⊎◌, refl, subst, ◌∙◌, true, false, arith, length, sym, ltb,
  if◌then◌else◌,
}
use ex.Common.Int.{pos, minus_one}
use ex.Common.First.{IsFirst}
use ex.Fs.State.Types.{TfsParams, AllocationState}
use ex.Fs.State.Memory.{Memory, Text, IsText}
use ex.Fs.State.Memory.Compare.{strncmp_eq_unique}
use ex.Fs.State.Dir.{d_name, is_named, is_unused, fill_entry}
use ex.Fs.Valid.{entry_inumber, entries_of, InUse, EntryOk, DirOk}
use ex.Fs.Valid.Entries.{
  entry_inumber-same, is_named-same, byte-same, Rewritten, fill_entry-Rewritten, fill_entry-ends,
  fill_entry-named,
}
use ex.Fs.Valid.Dir.{unused_of_eq, named_text}

-- The new entry `i` has a name and an inumber that no other entry has.
pub record IsNew (p : TfsParams) (ns : ℕ → AllocationState) (m : Memory) (i : ℕ) (nm : Text) (k : ℕ)
    : Type 0 where
  pub slot : IsFirst (is_unused 0 m) (entries_of p) i
  pub text : IsText nm
  pub length_le : length nm ≤ 39
  pub in_use : InUse p ns k
  pub fits : k < 2 ^ 31
  pub number_new : (e : ℕ) → e < entries_of p → entry_inumber m e ≢ pos k
  pub name_new : (e : ℕ) → e < entries_of p → is_named 0 nm m e ≡ false

module _ {p : TfsParams} {ns : ℕ → AllocationState} {m : Memory} {i : ℕ} {nm : Text} {k : ℕ}
    (v : DirOk p ns m) (new : IsNew p ns m i nm k) where
  abbrev m' : Memory
  m' = fill_entry 0 i nm (pos k) m

  w : Rewritten m m' i (pos k)
  w = fill_entry-Rewritten m i nm (pos k) new.fits

  number : (e : ℕ) → e ≢ i → entry_inumber m' e ≡ entry_inumber m e
  number e ne = entry_inumber-same m m' e (w.others e ne)

  number_at : (e : ℕ) → e ≡ i → entry_inumber m' e ≡ pos k
  number_at e q = subst (λ j. entry_inumber m' j ≡ pos k) (sym q) w.number

  ends_at : (e : ℕ) → e ≡ i → m' (d_name 0 e + 39) ≡ 0
  ends_at e q = subst (λ j. m' (d_name 0 j + 39) ≡ 0) (sym q) (fill_entry-ends m i nm (pos k))

  entry' : (e : ℕ) → e < entries_of p → entry_inumber m' e ≢ minus_one → EntryOk p ns m' e
  entry' e lt u = elim (ℕ_discrete e i) [
    | yes q ↦ record {
      number = rw (number_at e q);
      in_use = rw (number_at e q) new.in_use;
      ends = ends_at e q;
    }
    | no ne ↦
        let o = v.entry e lt (λ q. u (number e ne ∙ q)) in
        record {
          number = rw (number e ne) o.number;
          in_use = rw (number e ne) o.in_use;
          ends = byte-same m m' e (w.others e ne) 39 (omega arith) ∙ o.ends;
        }
  ]

  apart :
      (d e : ℕ)
      → d < entries_of p
      → e < entries_of p
      → entry_inumber m' d ≢ minus_one
      → entry_inumber m' d ≡ entry_inumber m' e
      → d ≡ e
  apart d e ld le u q = elim (ℕ_discrete d i) [
    | yes qd ↦ elim (ℕ_discrete e i) [
      | yes qe ↦ qd ∙ sym qe
      | no ne ↦ absurd (new.number_new e le (sym (number e ne) ∙ sym q ∙ number_at d qd))
    ]
    | no nd ↦ elim (ℕ_discrete e i) [
      | yes qe ↦ absurd (new.number_new d ld (sym (number d nd) ∙ q ∙ number_at e qe))
      | no ne ↦
          v.numbers_apart d e ld le (λ r. u (number d nd ∙ r)) (sym (number d nd) ∙ q ∙ number e ne)
    ]
  ]

  -- A text that names the new entry names no other.
  new_only :
      (d e : ℕ) (s : Text)
      → IsText s
      → e < entries_of p
      → d ≡ i
      → e ≢ i
      → is_named 0 s m' d ≡ true
      → is_named 0 s m' e ≡ true
      → d ≡ e
  new_only d e s t le qd ne pd pe =
      let same : s ≡ nm =
        strncmp_eq_unique m' (d_name 0 i) s nm 39 t new.text (ends_at i refl)
          (named_text s m' i (subst (λ j. is_named 0 s m' j ≡ true) qd pd))
          (fill_entry-named m i nm (pos k) new.length_le) in
      let old : is_named 0 nm m e ≡ true =
        subst (λ z. is_named 0 z m e ≡ true) same
          (sym (is_named-same m m' e (w.others e ne) s) ∙ pe) in
      absurd (cc (new.name_new e le))

  names' :
      (d e : ℕ) (s : Text)
      → IsText s
      → d < entries_of p
      → e < entries_of p
      → is_named 0 s m' d ≡ true
      → is_named 0 s m' e ≡ true
      → d ≡ e
  names' d e s t ld le pd pe = elim (ℕ_discrete d i) [
    | yes qd ↦ elim (ℕ_discrete e i) [
      | yes qe ↦ qd ∙ sym qe
      | no ne ↦ new_only d e s t le qd ne pd pe
    ]
    | no nd ↦ elim (ℕ_discrete e i) [
      | yes qe ↦ sym (new_only e d s t ld qe nd pe pd)
      | no ne ↦
          v.names_apart d e s t ld le (sym (is_named-same m m' d (w.others d nd) s) ∙ pd)
            (sym (is_named-same m m' e (w.others e ne) s) ∙ pe)
    ]
  ]

  -- The first unused entry is not above the mark.
  slot-le-mark : i ≤ v.mark
  slot-le-mark = elim (dec_lt v.mark i) [
    | yes lt ↦ absurd (
        cc (
          unused_of_eq m v.mark (v.fresh v.mark (omega (arith, lt, new.slot.below)) (omega arith)),
          new.slot.before v.mark lt,
        ))
    | no ge ↦ omega arith
  ]

  mark' : ℕ
  mark' = if ltb i v.mark then v.mark else i + 1

  mark_bounds :
      (v.mark ≤ mark') × (i < mark') × (mark' ≤ v.mark + 1) × ((mark' ≡ v.mark) ⊎ (mark' ≡ i + 1))
  unfolding mark'
  mark_bounds = ground (arith, slot-le-mark)

  pub DirOk-fill : DirOk p ns (fill_entry 0 i nm (pos k) m)
  DirOk-fill = record {
    entry = entry';
    numbers_apart = apart;
    names_apart = names';
    mark = mark';
    fresh = λ e lt h.
        let ne : e ≢ i = omega (arith, mark_bounds) in
        number e ne ∙ v.fresh e lt (omega (arith, mark_bounds));
    cleared = λ e lm lt h. elim (ℕ_discrete e i) [
      | yes q ↦ absurd (cc (number_at e q))
      | no ne ↦
          w.others e ne (d_name 0 e) (omega arith) (omega arith)
          ∙ v.cleared e (omega (arith, mark_bounds, slot-le-mark)) lt (sym (number e ne) ∙ h)
    ];
  }
