-- ===== src/Wire/Encode.antt =====
-- What is read of a request that `newRequest` has built.
use ex.Common.{
  ℕ, zero, suc, ◌-◌, ◌<◌, ◌≡◌, refl, ap, false, [], ◌∷◌, ◌++◌, ◌==◌, some, arith, length,
  length-append, take,
}
use ex.Common.Int.{ℤ}
use ex.Fs.State.Memory.{Text, IsText, strncpy_bytes}
use ex.Fs.State.Memory.Bytes.{length-strncpy_bytes}
use ex.Wire.{Request, c_string, char_array, new_request, max_pipe_name, max_box_name, max_message}

-- An array of zeros holds the empty string.
c_string-padding : (n : ℕ) → c_string (strncpy_bytes [] n ++ (0 ∷ [])) ≡ []
unfolding c_string strncpy_bytes
c_string-padding zero = refl
c_string-padding (suc n) = refl

c_string-strncpy_bytes :
    (s : Text) (n : ℕ) → IsText s → c_string (strncpy_bytes s n ++ (0 ∷ [])) ≡ take n s
unfolding c_string strncpy_bytes
c_string-strncpy_bytes s zero t = refl
c_string-strncpy_bytes [] (suc n) t = refl
c_string-strncpy_bytes (c ∷ s) (suc n) t =
    let some_char : (c == 0) ≡ false = ground arith in
    rw some_char (ap (λ r. c ∷ r) (c_string-strncpy_bytes s n t.1))

-- The array has its size, and holds the string cut to one char less.
c_string-char_array : (n : ℕ) (s : Text) → IsText s → c_string (char_array n s) ≡ take (n - 1) s
unfolding char_array
c_string-char_array n s t = c_string-strncpy_bytes s (n - 1) t

length-char_array : (n : ℕ) (s : Text) → 0 < n → length (char_array n s) ≡ n
unfolding char_array
length-char_array n s h =
    omega (arith, length-append (strncpy_bytes s (n - 1)) (0 ∷ []), length-strncpy_bytes s (n - 1))

-- A request fits its layout, and carries its code, its return code and the three texts, each cut at
-- the size of its array less one.
pub record Carries (r : Request) (code : ℕ) (session_pipe box_name : Text) (return_code : ℤ)
    (error_message : Text) : Type 0 where
  pub code_of : r.code ≡ code
  pub return_code_of : r.return_code ≡ return_code
  pub session_pipe_of : c_string r.session_pipe ≡ take 256 session_pipe
  pub box_name_of : c_string r.box_name ≡ take 32 box_name
  pub error_message_of : c_string r.error_message ≡ take 1024 error_message
  pub session_pipe_size : length r.session_pipe ≡ max_pipe_name
  pub box_name_size : length r.box_name ≡ max_box_name
  pub error_message_size : length r.error_message ≡ max_message

-- From three C strings `newRequest` builds a request that has the sizes of its layout and carries
-- the code, the return code, and the strings, cut at 256, 32 and 1024 bytes.
pub new_request-Carries :
    (code : ℕ) (session_pipe box_name : Text) (return_code : ℤ) (error_message : Text)
    → IsText session_pipe
    → IsText box_name
    → IsText error_message
    → (r : Request) × (new_request code
          (some session_pipe)
          (some box_name)
          return_code
          (some error_message)
        ≡ some r)
      × Carries r code session_pipe box_name return_code error_message
unfolding new_request
new_request-Carries code sp bn rc em tp tb tm = (
  _,
  refl,
  record {
    code_of = refl;
    return_code_of = refl;
    session_pipe_of = c_string-char_array max_pipe_name sp tp;
    box_name_of = c_string-char_array max_box_name bn tb;
    error_message_of = c_string-char_array max_message em tm;
    session_pipe_size = length-char_array max_pipe_name sp (omega arith);
    box_name_size = length-char_array max_box_name bn (omega arith);
    error_message_size = length-char_array max_message em (omega arith);
  },
)
