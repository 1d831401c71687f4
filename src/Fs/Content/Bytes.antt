-- ===== src/Fs/Content/Bytes.antt =====
-- Reading bytes: parts of what is read, and reading after a write.
use Prim.Native.Nat.{min}
use ex.Common.{
  ℕ, zero, suc, ◌+◌, ◌-◌, ◌≤◌, ◌<◌, ◌≡◌, inl, inr, refl, sym, ◌∙◌, ap, List, [], ◌∷◌, ◌++◌, arith,
  length, take, drop, get_or,
}
use ex.Fs.State.Memory.{Memory, write_bytes, read_bytes}
use ex.Fs.State.Memory.Bytes.{write_bytes-at, write_bytes-outside}
use ex.Fs.Ops.Transfer.{grow}

pub read_bytes-Agree :
    (m m' : Memory) (a n : ℕ)
    → ((p : ℕ) → a ≤ p → p < a + n → m' p ≡ m p)
    → read_bytes m' a n ≡ read_bytes m a n
unfolding read_bytes
read_bytes-Agree m m' a zero h = refl
read_bytes-Agree m m' a (suc n) h =
    rw (h a (omega arith) (omega arith)) (
      ap (λ l. m a ∷ l)
        (read_bytes-Agree m m' (a + 1) n (λ p l u. h p (omega arith) (omega arith))))

-- The same range, written in another way.
pub same_range : (m : Memory) {a b n k : ℕ} → a ≡ b → n ≡ k → read_bytes m a n ≡ read_bytes m b k
same_range m {a} {b} {n} {k} p q = ap (λ c. read_bytes m c n) p ∙ ap (read_bytes m b) q

pub take-read_bytes :
    (m : Memory) (a l n : ℕ) → take l (read_bytes m a n) ≡ read_bytes m a (min l n)
unfolding read_bytes
take-read_bytes m a zero n = let e : 0 ≡ min 0 n = omega arith in ap (read_bytes m a) e
take-read_bytes m a (suc l) zero = let e : 0 ≡ min (suc l) 0 = omega arith in ap (read_bytes m a) e
take-read_bytes m a (suc l) (suc n) =
    let e : suc (min l n) ≡ min (suc l) (suc n) = omega arith in
    ap (λ r. m a ∷ r) (take-read_bytes m (a + 1) l n) ∙ ap (read_bytes m a) e

pub drop-read_bytes :
    (m : Memory) (a o n : ℕ) → drop o (read_bytes m a n) ≡ read_bytes m (a + o) (n - o)
unfolding read_bytes
drop-read_bytes m a zero n =
    let e : a ≡ a + 0 = omega arith in let f : n ≡ n - 0 = omega arith in same_range m e f
drop-read_bytes m a (suc o) zero =
    let e : 0 ≡ 0 - suc o = omega arith in ap (read_bytes m (a + suc o)) e
drop-read_bytes m a (suc o) (suc n) =
    let e : a + 1 + o ≡ a + suc o = omega arith in
    let f : n - o ≡ suc n - suc o = omega arith in drop-read_bytes m (a + 1) o n ∙ same_range m e f

pub slice-read_bytes :
    (m : Memory) (a o l n : ℕ)
    → take l (drop o (read_bytes m a n)) ≡ read_bytes m (a + o) (min l (n - o))
slice-read_bytes m a o l n =
    ap (take l) (drop-read_bytes m a o n) ∙ take-read_bytes m (a + o) l (n - o)

pub read_bytes-add :
    (m : Memory) (a i j : ℕ) → read_bytes m a (i + j) ≡ read_bytes m a i ++ read_bytes m (a + i) j
unfolding read_bytes
read_bytes-add m a zero j =
    let e : a ≡ a + 0 = omega arith in let f : 0 + j ≡ j = omega arith in same_range m e f
read_bytes-add m a (suc i) j =
    let e : a + 1 + i ≡ a + suc i = omega arith in
    let f : suc i + j ≡ suc (i + j) = omega arith in
    ap (read_bytes m a) f
    ∙ ap (λ r. m a ∷ r)
        (read_bytes-add m (a + 1) i j ∙ ap (λ b. read_bytes m (a + 1) i ++ read_bytes m b j) e)

-- Reading a list of bytes, one after the other.
read_bytes-list :
    (m : Memory) (a : ℕ) (bs : List ℕ)
    → ((i : ℕ) → i < length bs → m (a + i) ≡ get_or bs i 0)
    → read_bytes m a (length bs) ≡ bs
unfolding read_bytes
read_bytes-list m a [] h = refl
read_bytes-list m a (c ∷ bs) h =
    let first : m a ≡ c = ap m (omega arith) ∙ h 0 (omega arith) in
    rw first (
      ap (λ l. c ∷ l)
        (read_bytes-list m (a + 1) bs (λ i lt. ap m (omega arith) ∙ h (suc i) (omega arith))))

pub read-write_bytes :
    (m : Memory) (a : ℕ) (bs : List ℕ) → read_bytes (write_bytes m a bs) a (length bs) ≡ bs
read-write_bytes m a bs =
    read_bytes-list (write_bytes m a bs) a bs (λ i lt. write_bytes-at m a bs (a + i) i refl lt)

-- The list with `bs` written at index `o`.
abbrev pub splice : ℕ → List ℕ → List ℕ → List ℕ
splice o bs c = take o c ++ (bs ++ drop (o + length bs) c)

take-drop : (o : ℕ) (c : List ℕ) → take o c ++ drop o c ≡ c
take-drop zero c = refl
take-drop (suc o) [] = refl
take-drop (suc o) (x ∷ c) = ap (λ r. x ∷ r) (take-drop o c)

pub splice_nothing : (o : ℕ) (c : List ℕ) → splice o [] c ≡ c
splice_nothing o c =
    let e : o + 0 ≡ o = omega arith in ap (λ i. take o c ++ drop i c) e ∙ take-drop o c

module _ (m : Memory) (a o size : ℕ) (bs : List ℕ) (h : o ≤ size) where
  abbrev m' : Memory
  m' = write_bytes m (a + o) bs

  head_same : read_bytes m' a o ≡ take o (read_bytes m a size)
  head_same =
      let e : o ≡ min o size = omega arith in
      read_bytes-Agree m m' a o (λ p l u. write_bytes-outside m (a + o) bs p (inl (omega arith)))
      ∙ ap (read_bytes m a) e
      ∙ sym (take-read_bytes m a o size)

  tail_same :
      read_bytes m' (a + o + length bs) (size - (o + length bs))
      ≡ drop (o + length bs) (read_bytes m a size)
  tail_same =
      let e : a + o + length bs ≡ a + (o + length bs) = omega arith in
      read_bytes-Agree m m' (a + o + length bs) (size - (o + length bs))
        (λ p l u. write_bytes-outside m (a + o) bs p (inr (omega arith)))
      ∙ ap (λ b. read_bytes m b (size - (o + length bs))) e
      ∙ sym (drop-read_bytes m a (o + length bs) size)

  -- A write within the range or at its end splices the bytes in.
  pub read_written :
      read_bytes (write_bytes m (a + o) bs) a (grow size (o + length bs))
      ≡ splice o bs (read_bytes m a size)
  read_written =
      let n = length bs in
      let rest = size - (o + n) in
      let e : grow size (o + n) ≡ o + (n + rest) = ground arith in
      ap (read_bytes m' a) e
      ∙ read_bytes-add m' a o (n + rest)
      ∙ ap (λ l. read_bytes m' a o ++ l) (read_bytes-add m' (a + o) n rest)
      ∙ ap (λ l. l ++ (read_bytes m' (a + o) n ++ read_bytes m' (a + o + n) rest)) head_same
      ∙ ap (λ l. take o (read_bytes m a size) ++ (l ++ read_bytes m' (a + o + n) rest))
          (read-write_bytes m (a + o) bs)
      ∙ ap (λ l. take o (read_bytes m a size) ++ (bs ++ l)) tail_same
