-- ===== src/Wire.antt =====
-- projeto-so-2022-23/utils/utility_funcs.h and `newRequest` of utility_funcs.c: the request that
-- clients and broker exchange. An array of char is the list of its bytes, as many as it has; what
-- is read of it as a string ends at the first NUL, or at the end of the array.
pub mod Encode
mod Tests
use ex.Common.{ℕ, ◌-◌, Option, none, some, List, [], ◌∷◌, ◌++◌, ◌==◌, if◌then◌else◌, replicate}
use ex.Common.Int.{ℤ, pos}
use ex.Fs.State.Memory.{Text, strncpy_bytes}

-- `MAX_PIPE_NAME`, `MAX_BOX_NAME`, `MAX_MESSAGE` and `BOX_SIZE`
abbrev pub max_pipe_name : ℕ
max_pipe_name = 257

abbrev pub max_box_name : ℕ
max_box_name = 33

abbrev pub max_message : ℕ
max_message = 1025

abbrev pub full_box_size : ℕ
full_box_size = 1024

-- `codes`
abbrev pub r_pub : ℕ
r_pub = 1

abbrev pub r_sub : ℕ
r_sub = 2

abbrev pub c_box : ℕ
c_box = 3

abbrev pub r_c_box : ℕ
r_c_box = 4

abbrev pub r_box : ℕ
r_box = 5

abbrev pub r_r_box : ℕ
r_r_box = 6

abbrev pub l_box : ℕ
l_box = 7

abbrev pub r_l_box : ℕ
r_l_box = 8

abbrev pub m_pub : ℕ
m_pub = 9

abbrev pub m_sub : ℕ
m_sub = 10

-- `Request`; `boxa` is a pointer of the process that has built the request.
pub record Request : Type 0 where
  pub code : ℕ
  pub session_pipe : List ℕ
  pub box_name : List ℕ
  pub return_code : ℤ
  pub error_message : List ℕ
  pub boxa : ℕ

-- `sizeof(Request)`, with its padding
abbrev pub request_size : ℕ
request_size = 1336

-- `Request request = {0}`
abbrev pub zero_request : Request
zero_request = record {
  code = 0;
  session_pipe = replicate max_pipe_name 0;
  box_name = replicate max_box_name 0;
  return_code = pos 0;
  error_message = replicate max_message 0;
  boxa = 0;
}

-- The string that an array of char holds.
unfoldable pub c_string : List ℕ → Text
c_string [] = []
c_string (c ∷ cs) = let rest = c_string cs in if c == 0 then [] else c ∷ rest

-- `strncpy(a, s, n - 1); a[n - 1] = '\0';`
unfoldable pub char_array : ℕ → Text → List ℕ
char_array n s = strncpy_bytes s (n - 1) ++ (0 ∷ [])

-- `newRequest` for three names. A name that is NULL makes strncpy read through NULL: `none`.
unfoldable pub new_request : ℕ → Option Text → Option Text → ℤ → Option Text → Option Request
new_request code (some session_pipe_name) (some box_name) return_code (some error_message) =
    some (record {
      code = code;
      session_pipe = char_array max_pipe_name session_pipe_name;
      box_name = char_array max_box_name box_name;
      return_code = return_code;
      error_message = char_array max_message error_message;
      boxa = 0;
    })
new_request code none box_name return_code error_message = none
new_request code (some s) none return_code error_message = none
new_request code (some s) (some b) return_code none = none
