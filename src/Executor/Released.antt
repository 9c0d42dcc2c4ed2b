-- ===== src/Executor/Released.antt =====
-- What a run of a container leaves behind.
use code_executor_api.Prelude.{
  Text, ◌≡◌, refl, Bool, true, false, Option, none, some, List, [], ◌∷◌,
}
use code_executor_api.Executor.Run.{
  Effect, opens_pty, starts_reader, starts_podman, podman_exits, removes_container, kills_podman,
  waits_again, sets_stop_event, joins_reader, closes_pty, Waited, exits, expires, interrupted,
  Cleanup, completes, cut_in_removal, cut_in_second_wait, cut_in_join, Answers, run_container,
}

pub data Reader : Type 0 where
  no_reader reading told_to_stop : Reader

-- The podman process and its container. After `_remove_container` it is told whether that has succeeded:
-- if it has not, the container may live on.
pub data Container : Type 0 where
  no_container running surviving : Container
  -- podman is there still, and killed or not; not killed in time, at the end
  after_removal killed unreaped : Bool → Container

-- What is left when podman has exited.
abbrev pub once_exited : Bool → Container
once_exited true = no_container
once_exited false = surviving

-- What the second wait leaves.
abbrev pub after_wait : Bool → Bool → Container
after_wait removed true = once_exited removed
after_wait removed false = unreaped removed

-- Whether the pty is open, and what its reader and the container do.
abbrev pub Open : Type 0
Open = Bool × Reader × Container

abbrev pub nothing_open : Open
nothing_open = (false, no_reader, no_container)

-- A reader is joined only after the stop event, when it has closed the pty, and a process that has
-- not exited is killed after its container is removed.
abbrev pub perform : Effect → Option Open → Option Open
perform opens_pty (some (false, no_reader, no_container)) = some (true, no_reader, no_container)
perform starts_reader (some (true, no_reader, c)) = some (true, reading, c)
perform (starts_podman argv) (some (true, reading, no_container)) = some (true, reading, running)
perform podman_exits (some (f, r, running)) = some (f, r, no_container)
perform (removes_container name b) (some (f, r, running)) = some (f, r, after_removal b)
perform kills_podman (some (f, r, after_removal b)) = some (f, r, killed b)
perform (waits_again b) (some (f, r, killed removed)) = some (f, r, after_wait removed b)
perform sets_stop_event (some (f, reading, c)) = some (f, told_to_stop, c)
perform sets_stop_event (some (f, no_reader, c)) = some (f, no_reader, c)
perform closes_pty (some (true, r, c)) = some (false, r, c)
perform joins_reader (some (false, told_to_stop, c)) = some (false, no_reader, c)
perform _ _ = none

unfoldable pub left_open : List Effect → Option Open
left_open [] = some nothing_open
left_open (e ∷ effects) = perform e (left_open effects)

-- What a podman that has not exited, with its pty and its reader, is left as, by whether the removal of
-- its container succeeds and whether it exits in time once it is killed.
abbrev pub left_by : Cleanup → Bool → Bool → Open
left_by completes removed reaped = (false, no_reader, after_wait removed reaped)
left_by cut_in_removal removed reaped = (true, reading, running)
left_by cut_in_second_wait removed reaped = (true, reading, killed removed)
left_by cut_in_join removed reaped = (false, told_to_stop, after_wait removed reaped)

-- As much of it as there is after an exit, or after a start that failed: the pty and its reader.
abbrev pub left_by_reader : Cleanup → Open
left_by_reader cut_in_join = (false, told_to_stop, no_container)
left_by_reader _ = nothing_open

-- What is left, by how the cleanup goes and how far the run has come.
abbrev pub remains : Answers → Cleanup → Bool → Bool → Waited → Open
remains p c false starts w = nothing_open
remains p c true false w = left_by_reader c
remains p c true true (exits n) = left_by_reader c
remains p c true true _ = left_by c p.removed p.reaped

-- However a run ends, by an exit, the timeout, a cancellation or a failure to start, a cleanup that is
-- not cut off closes the pty once and stops and joins its reader, and a podman that has not exited is
-- killed after one attempt to remove its container. The container is gone if that attempt succeeds, and
-- podman is gone if it exits within the second wait; else they are left, and the run ends all the same. A
-- cancellation that cuts the cleanup off leaves the reader to end by itself, if it comes in the await of
-- the reader; if it comes before, while a podman that has not exited is removed or waited for, it leaves
-- the pty open and the reader without its stop event.
pub run_container-left_open :
    (p : Answers) (name : Text) (argv : List Text)
    → left_open (run_container p name argv).1
      ≡ some (remains p p.cleanup p.pty_opens p.podman_starts p.waited)
unfolding run_container left_open
run_container-left_open p name argv = by_answers p.pty_opens p.podman_starts p.waited p.cleanup
  where
    by_answers :
        (opens starts : Bool) (w : Waited) (c : Cleanup)
        → left_open
            (run_container
              (record p { pty_opens = opens; podman_starts = starts; waited = w; cleanup = c })
              name
              argv).1
          ≡ some (remains p c opens starts w)
    by_answers false starts w completes = refl
    by_answers true false w completes = refl
    by_answers true true (exits n) completes = refl
    by_answers true true expires completes = refl
    by_answers true true interrupted completes = refl
    by_answers false starts w cut_in_removal = refl
    by_answers true false w cut_in_removal = refl
    by_answers true true (exits n) cut_in_removal = refl
    by_answers true true expires cut_in_removal = refl
    by_answers true true interrupted cut_in_removal = refl
    by_answers false starts w cut_in_second_wait = refl
    by_answers true false w cut_in_second_wait = refl
    by_answers true true (exits n) cut_in_second_wait = refl
    by_answers true true expires cut_in_second_wait = refl
    by_answers true true interrupted cut_in_second_wait = refl
    by_answers false starts w cut_in_join = refl
    by_answers true false w cut_in_join = refl
    by_answers true true (exits n) cut_in_join = refl
    by_answers true true expires cut_in_join = refl
    by_answers true true interrupted cut_in_join = refl
