-- ===== src/Wire/Tests.antt =====
-- A request with short names.
use ex.Common.{◌≡◌, some, [], ◌∷◌, arith}
use ex.Common.Int.{pos}
use ex.Wire.{Request, new_request, c_box}
use ex.Wire.Encode.{Carries, new_request-Carries}

new_request-Carries_example :
    (r : Request) × (new_request c_box
        (some (b'p' ∷ []))
        (some (b'b' ∷ b'x' ∷ []))
        (pos 0)
        (some [])
      ≡ some r)
    × Carries r c_box (b'p' ∷ []) (b'b' ∷ b'x' ∷ []) (pos 0) []
new_request-Carries_example =
    new_request-Carries c_box (b'p' ∷ []) (b'b' ∷ b'x' ∷ []) (pos 0) [] (omega arith) (omega arith)
      (omega arith)
