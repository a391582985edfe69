-- ===== src/Dashboard/TaskList/Latest.antt =====
-- Only the last question counts (components/dashboard/DashboardSummary.tsx, `loadListTasks`).
use clip_to_doc_archive.Dashboard.TaskList.{
  TaskList, Answer, failed, arrived, Turn, asked, answered, load_list_tasks, with_answer,
  list_tasks_loaded, turn, turns,
}
use clip_to_doc_archive.Prelude.{
  ℕ, ◌+◌, ◌<◌, ◌≡◌, refl, true, false, List, [], ◌∷◌, ◌++◌, arith, ◌==◌, nat_eq, list_eq, All,
}

module _ {T : Type 0} where
  -- An answer to an earlier question.
  pub data IsStale (last : ℕ) : Turn T → Type 0 where
    stale : {number : ℕ} {answer : Answer T} → number < last → IsStale last (answered number answer)

  turn-stale : (l : TaskList T) (t : Turn T) → IsStale l.request_seq t → turn l t ≡ l
  unfolding turn list_tasks_loaded
  turn-stale l asked x = elim x [ ]
  turn-stale l (answered number answer) (stale early) =
      let other : l.request_seq == number ≡ false = ground arith in rw other

  pub turns-stale :
      (l : TaskList T) (stale_turns : List (Turn T))
      → All (IsStale l.request_seq) stale_turns
      → turns l stale_turns ≡ l
  unfolding turns
  turns-stale l [] all_stale = refl
  turns-stale l (t ∷ rest) all_stale =
      rw (turn-stale l t all_stale.0) (turns-stale l rest all_stale.1)

  turns-append : (l : TaskList T) (s t : List (Turn T)) → turns l (s ++ t) ≡ turns (turns l s) t
  unfolding turns
  turns-append l [] t = refl
  turns-append l (a ∷ s) t = turns-append (turn l a) s t

  request_seq-with_answer :
      (answer : Answer T) (l : TaskList T) → (with_answer answer l).request_seq ≡ l.request_seq
  unfolding with_answer
  request_seq-with_answer (failed _) l = refl
  request_seq-with_answer (arrived _) l = refl

  -- Once the last question of the task list is answered, the list is what this answer makes of it
  -- and no longer loading, whatever answers to earlier questions come before and after it.
  pub turns-Latest :
      (l : TaskList T) (before after : List (Turn T)) (answer : Answer T)
      → All (IsStale (l.request_seq + 1)) before
      → All (IsStale (l.request_seq + 1)) after
      → turns l (asked ∷ before ++ answered (l.request_seq + 1) answer ∷ after)
        ≡ with_answer answer (load_list_tasks l)
  unfolding turns turn list_tasks_loaded load_list_tasks
  turns-Latest l before after answer early late =
      let asked_l = load_list_tasks l in
      let own : (l.request_seq + 1) == (l.request_seq + 1) ≡ true = ground arith in
      rw
        (
          turns-append asked_l before (answered (l.request_seq + 1) answer ∷ after),
          turns-stale asked_l before early,
          own,
        )
        (turns-stale (with_answer answer asked_l) after
          (rw (request_seq-with_answer answer asked_l) late))
