-- ===== src/Broker/Tests.antt =====
-- The theorems about the broker with an environment in which every call succeeds, and the first
-- request read asks for the box "b".
use ex.Common.{
  ℕ, suc, length-replicate, ◌<◌, ◌≤◌, ◌==◌, if◌then◌else◌, ◌≡◌, refl, true, false, none, List, [],
  ◌∷◌, arith, All, replicate,
}
use ex.Common.Int.{ℤ, pos, minus_one, ◌==ℤ◌}
use ex.Fs.State.Types.{t_file, free, Fs}
use ex.Fs.State.Memory.{Text}
use ex.Fs.State.Setup.{Malloc}
use ex.Fs.State.Monad as File
use ex.Fs.Ops.Mutex.{IsPosix, working}
use ex.Fs.Ops.Init.{tfs_init, tfs_default_params}
use ex.Fs.Valid.{IsValid}
use ex.Fs.Safe.Init.{tfs_init-IsValid}
use ex.Boxes.{Box}
use ex.Wire.{Request, zero_request, c_box}
use ex.Process.{Env, Process, Call, read_request, eagain}
use ex.Process.Count.{reads}
use ex.Broker.Sessions.{open_publisher}
use ex.Broker.Publish.{Kept, open_publisher-Kept}
use ex.Process.Silent.{sent, calls_of}
use ex.Broker.{Server}
use ex.Broker.Serve.{selector, main}
use ex.Broker.Calls.{sent-main}
use ex.Broker.Quiet.{Handled, selector-Handled}
use ex.Broker.Ends.{Ran, main-Ran}

abbrev creation : Request
creation = record zero_request { code = c_box; box_name = b'b' ∷ replicate 32 0 }

abbrev env : Env
env = record {
  result = λ cs. pos 3;
  errno = λ cs. 0;
  received = λ cs. creation;
  pointer = λ cs. 1;
  interrupted = λ cs. false;
  uninitialised = λ cs. [];
  scanned = λ cs. none;
  input_error = λ cs. false;
  input_end = λ cs. false;
  pthread = working;
  fuel = 2;
}

posix : IsPosix env.pthread
posix = record { lock_ne = refl; unlock_ne = refl }

abbrev heap : Malloc
heap = record {
  inode_table_ok = true;
  freeinode_ts_ok = true;
  fs_data_ok = true;
  free_blocks_ok = true;
  open_file_table_ok = true;
  free_open_file_entries_ok = true;
  inodes = λ i. record { i_node_type = t_file; i_size = 0; i_data_block = pos 0 };
  inode_states = λ i. free;
  bytes = λ a. 0;
  block_states = λ i. free;
  entries = λ i. record { of_inumber = pos 0; of_offset = 0 };
  entry_states = λ i. free;
}

abbrev unmounted : Fs
unmounted = record {
  fs_params = tfs_default_params;
  allocated = none;
  inode_table = heap.inodes;
  freeinode_ts = heap.inode_states;
  fs_data = heap.bytes;
  free_blocks = heap.block_states;
  open_file_table = heap.entries;
  free_open_file_entries = heap.entry_states;
  locked = false;
}

abbrev no_box : Box
no_box = record {
  box_name = [];
  last = 0;
  box_size = 0;
  n_publishers = 0;
  n_subscribers = 0;
  next = 0;
}

abbrev started : Fs → Process Server
started s = record {
  variables = record { fs = s; boxes = λ a. no_box; head = none; server_running = true };
  calls = [];
}

abbrev mounted : Fs
mounted = File.final (tfs_init heap none unmounted) unmounted

mounted-IsValid : IsValid mounted
mounted-IsValid = File.Returns-final unmounted (
    File.mono (tfs_init-IsValid heap tfs_default_params (omega arith) unmounted none refl refl refl)
      (λ r t (_, v). v))

selector-Handled_example : Handled (selector env c_box (b'p' ∷ []) (b'b' ∷ []) (started mounted))
selector-Handled_example =
    selector-Handled env posix (started mounted) refl mounted-IsValid (b'p' ∷ []) (b'b' ∷ []) c_box
      (omega arith)

abbrev arguments : List Text
arguments = (b'm' ∷ []) ∷ (b'r' ∷ []) ∷ (b'4' ∷ []) ∷ []

creation-bytes : All (λ c. c < 256) creation.box_name
creation-bytes = omega arith

main-Ran_example : Ran (started unmounted) (main env heap arguments (started unmounted))
main-Ran_example =
    main-Ran env posix (λ cs. creation-bytes) heap arguments (started unmounted) (omega arith) refl
      refl refl

sent-main_example : sent (calls_of (main env heap arguments (started unmounted))) ≡ 0
sent-main_example = sent-main env heap arguments (started unmounted)

-- A publisher whose pipe is closed after its first message: the second read fails, and every call
-- but a read returns 0.
closing_result : List Call → ℤ
closing_result (read_request fd ∷ cs) = if reads cs == 0 then pos 0 else minus_one
closing_result cs = pos 0

abbrev closing : Env
closing = record env { result = closing_result; errno = λ cs. eagain; fuel = 3 }

closing-ends :
    (cs : List Call)
    → 2 ≤ suc (reads cs)
    → (closing.result (read_request (pos 3) ∷ cs) ==ℤ pos 0) ≡ false
unfolding closing_result
closing-ends cs two = let z : (reads cs == 0) ≡ false = ground arith in rw z refl

-- The box at address 1.
open_publisher-Kept_example : Kept (open_publisher closing (pos 3) 1 (started mounted))
open_publisher-Kept_example =
    open_publisher-Kept closing posix (λ cs. omega (arith, length-replicate {A = ℕ} 1025 0)) (pos 3)
      2 closing-ends 1 (started mounted) mounted-IsValid (omega arith) (omega arith) (omega arith)
      (omega arith)
