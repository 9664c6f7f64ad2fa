-- ===== src/Fd/Tests.antt =====
-- The theorems on src/fs/file.c at concrete tables.
use zso_ptrace.Base.{◌≡◌, refl, true, false, none, some, [], arith}
use zso_ptrace.Machine.{
  machine, machine-FindsZero, machine-IsPolite, machine-Succeeds, busy_table, busy_table-IsValid,
  busy_state,
}
use zso_ptrace.Fd.Table.{fcheck_files, set_close_on_exec_bit, set_open_fd, word_full}
use zso_ptrace.Fd.Refs.{HasSameRefs}
use zso_ptrace.Fd.Ends.{Ends}
use zso_ptrace.Fd.Expand.{expand_files}
use zso_ptrace.Fd.Grow.{Expanded, expand_files-Ends}
use zso_ptrace.Fd.Search.{IsLowest, candidate-IsLowest}
use zso_ptrace.Fd.Slot.{mark_cloexec, wants_cloexec, candidate}
use zso_ptrace.Fd.Replace.{Closed, close_fd-Closed, Dupped, do_dup2-Dupped}
use zso_ptrace.Fd.Close.{close_fd}
use zso_ptrace.Fd.Dup.{put_in_slot, do_dup2}
use zso_ptrace.Fd.Lookup.{FoundIn, fget_in-FoundIn}
use zso_ptrace.Fd.Get.{fget_in}

busy_idle : busy_table.resize_in_progress ≡ false
unfolding fcheck_files put_in_slot mark_cloexec wants_cloexec set_close_on_exec_bit set_open_fd
    word_full
busy_idle = refl

-- What the examples run on: file 8 under descriptor 3, nothing under 4.
finds_3 : fcheck_files busy_table 3 ≡ some 8
unfolding fcheck_files put_in_slot mark_cloexec wants_cloexec set_close_on_exec_bit set_open_fd
    word_full
finds_3 = refl

finds_4 : fcheck_files busy_table 4 ≡ none
unfolding fcheck_files put_in_slot mark_cloexec wants_cloexec set_close_on_exec_bit set_open_fd
    word_full
finds_4 = refl

expand_files-Ends_example :
    Ends
      (λ r t.
        Expanded 100 busy_table (record busy_table { resize_in_progress = true }) r t.files
        × HasSameRefs [] t.log)
      (expand_files machine 100 busy_state)
expand_files-Ends_example =
    expand_files-Ends machine 100 busy_state machine-IsPolite busy_table-IsValid busy_idle

candidate-IsLowest_example : IsLowest busy_table 3 (candidate machine 3 busy_table)
candidate-IsLowest_example =
    candidate-IsLowest machine machine-FindsZero busy_table 3 busy_table-IsValid

close_fd-Closed_example : Ends (Closed machine 3 busy_state) (close_fd machine 3 busy_state)
close_fd-Closed_example = close_fd-Closed machine 3 busy_state busy_table-IsValid

do_dup2-Dupped_example : Ends (Dupped 12 3 0 busy_state) (do_dup2 12 3 0 busy_state)
unfolding put_in_slot mark_cloexec wants_cloexec set_close_on_exec_bit set_open_fd word_full
do_dup2-Dupped_example = do_dup2-Dupped 12 3 0 busy_state busy_table-IsValid (omega arith)

fget_in-FoundIn_example : Ends (FoundIn machine 3 0 busy_state) (fget_in machine 1 3 0 busy_state)
fget_in-FoundIn_example = fget_in-FoundIn machine 1 3 0 busy_state machine-Succeeds
