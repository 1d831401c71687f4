-- ===== src/Clients/Listing.antt =====
-- The loop of manager.c that prints the boxes.
use ex.Common.{ℕ, zero, suc, ◌≡◌, ◌≤◌, refl, arith, List, [], ◌∷◌}
use ex.Boxes.{Ptr}
use ex.Boxes.Chain.{IsChain}
use ex.Process.{Env, Process, Out, done, stop, null_access, print_box, release}
use ex.Clients.{Client}
use ex.Clients.Manager.{print_boxes}

-- The process behind the round for the box at `a`.
abbrev pub listed : Ptr → Process Client → Process Client
listed a p =
    let b = p.variables.boxes a in
    record p {
      calls = release a ∷ print_box b.box_name b.box_size b.n_publishers b.n_subscribers ∷ p.calls;
    }

-- What the loop does to the boxes of a chain.
abbrev pub listing : List Ptr → Process Client → Out Client (Unit {0})
listing [] p = stop null_access p
listing (a ∷ []) p = stop null_access (listed a p)
listing (a ∷ b ∷ []) p = stop null_access (listed b (listed a p))
listing (a ∷ b ∷ c ∷ ps) p = done tt (listed a p)

-- With fuel for three rounds, and the pointer to a chain of boxes: for at least three boxes the
-- loop prints and frees the first one only, and ends; for one box or two it prints and frees these,
-- and reads through NULL; and for none it reads through NULL at once.
pub print_boxes_lem :
    (env : Env) (fuel : ℕ) (aux : Ptr) (ps : List Ptr) (p : Process Client)
    → 3 ≤ fuel
    → IsChain p.variables.boxes aux ps
    → print_boxes env fuel aux p ≡ listing ps p
unfolding print_boxes
print_boxes_lem env zero aux ps p enough c = absurd (omega arith)
print_boxes_lem env (suc zero) aux ps p enough c = absurd (omega arith)
print_boxes_lem env (suc (suc zero)) aux ps p enough c = absurd (omega arith)
print_boxes_lem env (suc (suc (suc fuel))) aux [] p enough c = rw c refl
print_boxes_lem env (suc (suc (suc fuel))) aux (a ∷ []) p enough c = ground arith
print_boxes_lem env (suc (suc (suc fuel))) aux (a ∷ b ∷ []) p enough c = ground arith
print_boxes_lem env (suc (suc (suc fuel))) aux (a ∷ b ∷ d ∷ ps) p enough c = ground arith
