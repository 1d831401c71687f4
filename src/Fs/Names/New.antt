-- ===== src/Fs/Names/New.antt =====
-- `open_new` of fs/operations.c: the entry and the handle of a file that is created.
use native.Mathlib.Decide.{dec_le}
use ex.Common.{
  ℕ, Bool, ◌<◌, ◌≤◌, ◌≡◌, inl, inr, refl, subst, sym, ◌∙◌, ap, true, false, Option-cases, length,
  arith, update_self, update, update-ne, ◌≢◌,
}
use ex.Common.Int.{pos, minus_one}
use ex.Common.First.{first_index, IsFirst, first_index-eq_some, first_index-eq_none}
use ex.Fs.State.Types.{Fs, Inode, free}
use ex.Fs.State.Memory.{Text, IsText}
use ex.Fs.State.Monad
use ex.Fs.State.Monad.{M, Out, done, Returns, returns, and_then, ◌>>=◌, ◌>>◌}
use ex.Fs.State.Tables.{inode_delete}
use ex.Fs.State.Dir.{is_unused, is_named, fill_entry, add_dir_entry, find_in_dir}
use ex.Fs.Ops.Mutex.{Pthread, IsPosix, unlock_return}
use ex.Fs.Ops.Open.{open_finish, creates}
use ex.Fs.Valid.{IsValid, InUse, entries_of}
use ex.Fs.Safe.Finish.{IsValid-locked, unlock_return-done}
use ex.Fs.Names.{same_data-SameNames}
use ex.Fs.Names.{IsRebound, IsRebound-IsRenamed, find_in_dir-absent}
use ex.Fs.Names.Rebind.{fill_entry-IsRebound}
use ex.Fs.Names.Handle.{Handle-same, open_finish-Ended}
use ex.Fs.Names.Existing.{Opened, made, refused, Refusal, no_entry, long_name}
use ex.Fs.Valid.Create.{
  created, created-IsValid, created-InUse, created-unnamed, free_inode, empty_file,
}
use ex.Fs.Valid.Alloc.{free_of_test}
use ex.Fs.Valid.Tight.{same-IsTight, created-AllOwned, deleted-IsTight}
use ex.Fs.Valid.Delete.{inode_delete-done, deleted-IsValid}
use ex.Fs.Valid.Dir.{DirOk-free}
use ex.Fs.Valid.Search.{add_dir_entry-done, add_dir_entry-long}
use ex.Fs.Content.Keep.{content-same, fill_entry-SameBlocks}
use ex.Fs.Safe.Open.{filled-IsNew, filled-IsValid, after_add}

module _ {pt : Pthread} (posix : IsPosix pt) where
  module _ {s : Fs} (v : IsValid s) (b : Bool) (nm : Text) (mode : ℕ) (text : IsText nm)
      (some_name : 0 < length nm)
      (name_new : (e : ℕ) → e < entries_of s.fs_params → is_named 0 nm s.fs_data e ≡ false)
      (creating : creates mode ≡ true) where
    l : Fs
    l = record s { locked = b }

    vl : IsValid (record s { locked = b })
    vl = IsValid-locked b v

    missing : find_in_dir 0 nm s ≡ done minus_one s
    missing = find_in_dir-absent v nm name_new

    module _ (i : ℕ) (first : IsFirst (free_inode s) s.fs_params.max_inode_count i) where
      c : Fs
      c = created i (record s { locked = b })

      vc : IsValid (created i (record s { locked = b }))
      vc = created-IsValid vl first

      uc : InUse s.fs_params (created i s).freeinode_ts i
      uc = created-InUse vl first

      was_free : s.freeinode_ts i ≡ free
      was_free = free_of_test _ first.passes

      -- A file in use is not the new one.
      other_file : (j : ℕ) → InUse s.fs_params s.freeinode_ts j → j ≢ i
      other_file j u q = cc (first.passes, u.is_taken, ap s.freeinode_ts q)

      same_node :
          (j : ℕ)
          → InUse s.fs_params s.freeinode_ts j
          → update s.inode_table i empty_file j ≡ s.inode_table j
      same_node j u = update-ne s.inode_table i empty_file j (other_file j u)

      -- The new inode is deleted again.
      undo-Opened :
          Refusal s nm mode
          → Returns (Opened s nm mode) (
              and_then
                (inode_delete (pos i) (created i (record s { locked = b })))
                (λ _. unlock_return pt minus_one))
      undo-Opened why =
          let unnamed = created-unnamed vl first in
          let vd = deleted-IsValid vc uc s.fs_data (DirOk-free vc.dir i unnamed) in
          rw (inode_delete-done vc uc, unlock_return-done posix minus_one _)
            (returns (
              refused missing (same_data-SameNames v (IsValid-locked _ vd) refl refl)
                (λ j u. content-same (created i s) j v refl (λ a le. refl) (same_node j u) u)
                (record {
                  same_params = refl;
                  no_leak = λ tight.
                      deleted-IsTight i (created i s)
                        (created-AllOwned i empty_file was_free tight);
                })
                (refl, refl) why))

      entered-Opened :
          (e : ℕ)
          → IsFirst (is_unused 0 s.fs_data) (entries_of s.fs_params) e
          → length nm ≤ 39
          → Returns (Opened s nm mode) (
              open_finish pt (pos i) 0 (record (created i (record s { locked = b })) {
                fs_data = fill_entry 0 e nm (pos i) s.fs_data;
              }))
      entered-Opened e slot le =
          let vf = filled-IsValid posix nm vl text some_name name_new i first e slot le in
          let new = filled-IsNew posix nm vl text some_name name_new i first e slot le in
          Monad.mono (open_finish-Ended posix i 0 vf uc (omega arith)) (λ r t w.
            made i missing creating
              (IsRebound-IsRenamed v w.valid w.same_params (
                subst (λ m. IsRebound s.fs_params s.fs_data m nm (pos i)) (sym w.same_data)
                  (fill_entry-IsRebound vc.dir new)))
              (ap (λ (g : ℕ → Inode). (g i).i_size) w.same_nodes
                ∙ ap (λ (n : Inode). n.i_size) (update_self s.inode_table i empty_file))
              (λ j u.
                content-same t j v w.same_params
                  (λ a lt.
                    ap (λ m. m a) w.same_data
                    ∙ fill_entry-SameBlocks s.fs_params s.fs_data e nm (pos i) slot.below a lt)
                  (ap (λ (g : ℕ → Inode). g j) w.same_nodes ∙ same_node j u) u)
              (record {
                same_params = w.same_params;
                no_leak = λ tight.
                    same-IsTight
                      (record (created i s) { fs_data = fill_entry 0 e nm (pos i) s.fs_data }) t
                      w.same_params w.same_nodes w.same_inodes w.same_blocks
                      (created-AllOwned i empty_file was_free tight);
              })
              (Handle-same s refl (refl, refl) w.handle_of))

      pub enter-Opened : Returns (Opened s nm mode) (
          and_then
            (add_dir_entry 0 nm (pos i) (created i (record s { locked = b })))
            (after_add pt i))
      enter-Opened = elim (dec_le (length nm) 39) [
        | yes le ↦
            rw (add_dir_entry-done vc nm (pos i) some_name le)
              (elim (Option-cases (first_index (entries_of s.fs_params) (is_unused 0 s.fs_data))) [
                | inl q ↦
                    rw q (undo-Opened (no_entry (first_index-eq_none _ (is_unused 0 s.fs_data) q)))
                | inr (e, q) ↦
                    rw q (entered-Opened e (first_index-eq_some _ (is_unused 0 s.fs_data) q) le)
              ])
        | no gt ↦
            rw (add_dir_entry-long vc nm (pos i) (omega arith))
              (undo-Opened (long_name (omega arith)))
      ]
