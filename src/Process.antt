-- ===== src/Process.antt =====
-- What the four processes share: a run keeps its variables and the list of its calls of the
-- operating system, and ends with a value or stops. What the system answers is a parameter, a
-- function of the calls made so far, the present one first. Messages to stderr are left out, and
-- so is what is printed but for the boxes, the responses and the messages of a box.
pub mod Silent
pub mod Count
use ex.Common.{
  ℕ, Bool, true, false, Option, none, some, List, [], ◌∷◌, ltb, ◌==◌, if◌then◌else◌, length, take,
  drop, replicate, ◌++◌, ◌-◌,
}
use ex.Common.Int.{ℤ, pos, negsuc}
use ex.Fs.State.Memory.{Text}
use ex.Fs.Ops.Mutex.{Pthread}
use ex.Boxes
use ex.Boxes.{Ptr, Heap}
use ex.Wire.{Request, new_request, c_string, max_message}

pub data Access : Type 0 where
  read_only write_only : Access

-- The calls of the operating system and of the C library.
pub data Call : Type 0 where
  make_fifo : Text → Call
  set_signal : Call
  open_pipe : Text → Access → Call
  set_nonblock : ℤ → Call
  read_request : ℤ → Call
  write_request : ℤ → Request → ℕ → Call
  close_pipe : ℤ → Call
  unlink_pipe : Text → Call
  allocate : Call
  release : Ptr → Call
  read_line : Call
  print : List ℕ → Call
  print_box : Text → ℕ → ℕ → ℕ → Call
  print_count : ℕ → Call

-- The answers: the value of a call, `errno` behind it, the request that a read has put into its
-- buffer, the pointer of a malloc, whether SIGINT has come by then, the bytes of an array or a
-- variable that has not been initialised, what sscanf finds in such an array, and whether fgets has
-- met an error or the end of the input. `fuel` bounds the rounds of each loop.
pub record Env : Type 0 where
  pub result : List Call → ℤ
  pub errno : List Call → ℕ
  pub received : List Call → Request
  pub pointer : List Call → Ptr
  pub interrupted : List Call → Bool
  pub uninitialised : List Call → List ℕ
  pub scanned : List Call → Option ℕ
  pub input_error : List Call → Bool
  pub input_end : List Call → Bool
  pub pthread : Pthread
  pub fuel : ℕ

-- `EINTR`, `EAGAIN` and `EEXIST`
abbrev pub eintr : ℕ
eintr = 4

abbrev pub eagain : ℕ
eagain = 11

abbrev pub eexist : ℕ
eexist = 17

pub record Process (V : Type 0) : Type 0 where
  pub variables : V
  pub calls : List Call

-- Why a run stops: an access through NULL; one outside an array; a fault of the file system; exit
-- with EXIT_FAILURE; a sum that does not fit an int; or a loop that is not done when the fuel is used
-- up.
pub data Fault : Type 0 where
  null_access overrun fs_fault exit_failure int_overflow unfinished : Fault

pub data Out (V A : Type 0) : Type 0 where
  done : A → Process V → Out V A
  stop : Fault → Process V → Out V A

abbrev pub M : Type 0 → Type 0 → Type 0
M V A = Process V → Out V A

abbrev pub pure : {V A : Type 0} → A → M V A
pure a p = done a p

abbrev pub and_then : {V A B : Type 0} → Out V A → (A → M V B) → Out V B
and_then (done a p) f = f a p
and_then (stop e p) f = stop e p

infixl 5 ◌>>=◌ ◌>>◌
abbrev pub ◌>>=◌ : {V A B : Type 0} → M V A → (A → M V B) → M V B
◌>>=◌ m f p = and_then (m p) f

abbrev pub ◌>>◌ : {V A B : Type 0} → M V A → M V B → M V B
m >> k = m >>= λ _. k

abbrev pub fail : {V A : Type 0} → Fault → M V A
fail e p = stop e p

abbrev pub get : {V : Type 0} → M V V
get p = done p.variables p

abbrev pub modify : {V : Type 0} → (V → V) → M V (Unit {0})
modify f p = done tt (record p { variables = f p.variables })

-- A call, and its value.
abbrev pub call : {V : Type 0} → Env → Call → M V ℤ
call env c p =
    let cs = c ∷ p.calls in done (env.result cs) (record { variables = p.variables; calls = cs })

-- A call whose value is not used.
abbrev pub call_ : {V : Type 0} → Env → Call → M V (Unit {0})
call_ env c = do r ← call env c; pure tt

-- `malloc(sizeof(BOX))`
abbrev pub malloc_box : {V : Type 0} → Env → M V Ptr
malloc_box env p =
    let cs = allocate ∷ p.calls in
    done (env.pointer cs) (record { variables = p.variables; calls = cs })

abbrev pub ask : {V A : Type 0} → (List Call → A) → M V A
ask f p = done (f p.calls) p

abbrev pub is_positive : ℤ → Bool
is_positive (pos n) = ltb 0 n
is_positive (negsuc n) = false

-- What `request` holds behind a read: what was read, or what it held before.
abbrev pub filled : Env → List Call → Request → Request
filled env cs old = if is_positive (env.result cs) then env.received cs else old

-- `read(fd, &request, sizeof(request))`: its value, and what `request` holds then.
abbrev pub read_into : {V : Type 0} → Env → ℤ → Request → M V (ℤ × Request)
read_into env fd request p =
    let cs = read_request fd ∷ p.calls in
    done (env.result cs, filled env cs request) (record { variables = p.variables; calls = cs })

-- `newRequest`
abbrev pub make_request :
    {V : Type 0} → ℕ → Option Text → Option Text → ℤ → Option Text → M V Request
make_request code session_pipe box_name return_code message p =
    elim (new_request code session_pipe box_name return_code message) [
      | none ↦ stop null_access p
      | some r ↦ done r p
    ]

-- `strlen(s)`, or any other first use of a string that may be NULL.
abbrev pub string : {V : Type 0} → Option Text → M V Text
string none p = stop null_access p
string (some s) p = done s p

-- `len = strlen(message); if (len < MAX_MESSAGE) memset(message + len - 1, 0, MAX_MESSAGE - len);`
-- An empty string makes it start before the array.
unfoldable pub strip_last : {V : Type 0} → List ℕ → M V (List ℕ)
strip_last message p =
    let len = length (c_string message) in
    if len == 0
    then stop overrun p
    else if ltb len max_message
    then done
        (take (len - 1) message
          ++ (replicate (max_message - len) 0 ++ drop (max_message - 1) message))
        p
    else done message p
