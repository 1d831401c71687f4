-- ===== src/Boxes/Order.antt =====
-- The order of `strcmp` in utils/utility_funcs.c, and insertions in it that commute.
use ex.Common.{
  ◌≡◌, inl, inr, refl, sym, ap, ◌∙◌, true, false, List, [], ◌∷◌, arith, Bool-cases, if◌then◌else◌,
}
use ex.Common.Int.{is_nonneg}
use ex.Boxes.{Text, strcmp}
use ex.Boxes.Chain.{strcmp_total}
use ex.Boxes.Sort.{insert_name}

pub strcmp_trans :
    (a b c : Text)
    → is_nonneg (strcmp a b) ≡ true
    → is_nonneg (strcmp b c) ≡ true
    → is_nonneg (strcmp a c) ≡ true
unfolding strcmp
strcmp_trans [] [] c h k = k
strcmp_trans [] (y ∷ b) c h k = cc
strcmp_trans (x ∷ a) b [] h k = refl
strcmp_trans (x ∷ a) [] (z ∷ c) h k = cc
strcmp_trans (x ∷ a) (y ∷ b) (z ∷ c) h k = ground (arith, strcmp_trans a b c, h, k)

pub strcmp_antisym :
    (a b : Text) → is_nonneg (strcmp a b) ≡ true → is_nonneg (strcmp b a) ≡ true → a ≡ b
unfolding strcmp
strcmp_antisym [] [] h k = refl
strcmp_antisym [] (y ∷ b) h k = cc
strcmp_antisym (x ∷ a) [] h k = cc
strcmp_antisym (x ∷ a) (y ∷ b) h k = ground (arith, strcmp_antisym a b, h, k)

-- Two names before a list.
front_comm :
    (x y : Text) (zs : List Text)
    → (if is_nonneg (strcmp y x) then x ∷ y ∷ zs else y ∷ x ∷ zs)
      ≡ (if is_nonneg (strcmp x y) then y ∷ x ∷ zs else x ∷ y ∷ zs)
front_comm x y zs = elim (Bool-cases (is_nonneg (strcmp y x))) [
  | inl yx ↦ elim (Bool-cases (is_nonneg (strcmp x y))) [
    | inl xy ↦
        rw (yx, xy)
          (let e = strcmp_antisym x y xy yx in
            ap (λ n. n ∷ y ∷ zs) e ∙ ap (λ n. y ∷ n ∷ zs) (sym e))
    | inr xy ↦ rw (yx, xy) refl
  ]
  | inr yx ↦ let xy = strcmp_total y x yx in rw (yx, xy) refl
]

-- A name that goes before `z`, and one that goes behind it.
split_comm :
    (x y z : Text) (zs : List Text)
    → is_nonneg (strcmp z x) ≡ true
    → is_nonneg (strcmp z y) ≡ false
    → insert_name x (insert_name y (z ∷ zs)) ≡ insert_name y (insert_name x (z ∷ zs))
split_comm x y z zs zx zy =
    let xy : is_nonneg (strcmp x y) ≡ false = elim (Bool-cases (is_nonneg (strcmp x y))) [
      | inl xy ↦ absurd (cc (zy, strcmp_trans z x y zx xy))
      | inr xy ↦ xy
    ] in
    rw (zx, zy, zx, xy) refl

-- Two insertions commute, in any list.
pub insert_name_comm :
    (x y : Text) (zs : List Text)
    → insert_name x (insert_name y zs) ≡ insert_name y (insert_name x zs)
insert_name_comm x y [] = front_comm x y []
insert_name_comm x y (z ∷ zs) = elim (Bool-cases (is_nonneg (strcmp z x))) [
  | inl zx ↦ elim (Bool-cases (is_nonneg (strcmp z y))) [
    | inl zy ↦ rw (zx, zy, zx) (front_comm x y (z ∷ zs))
    | inr zy ↦ split_comm x y z zs zx zy
  ]
  | inr zx ↦ elim (Bool-cases (is_nonneg (strcmp z y))) [
    | inl zy ↦ sym (split_comm y x z zs zy zx)
    | inr zy ↦ rw (zx, zy, zx) (ap (λ r. z ∷ r) (insert_name_comm x y zs))
  ]
]
