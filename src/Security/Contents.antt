-- ===== src/Security/Contents.antt =====
-- What a `secure_write` keeps true of the entry under its own path.
use mayfly_agent.Security.Leads.{check_leads, then_leads, syscall_leads, if_Ends, Leads, Ends}
use mayfly_agent.Errors.{io, Error}
use mayfly_agent.Security.Frame.{ends_both, Throughout}
use mayfly_agent.Text.Chars.{text_eq_self, text_eq, Bytes, Text}
use mayfly_agent.Security.{Disk, set, Entry}
use mayfly_agent.Prelude.{ℕ, ◌≡◌, refl, sym, Bool, false, Option, none, take}
use mayfly_agent.Result.{err, ok, Result}
use mayfly_agent.Security.Write.{
  advance, move, delete_on_error, write_contents, new_file, History, fill, atomic_replace, Run,
  secure_write,
}
use mathlib.Core.Path.{subst}

module _ (Q : Option Entry → Type 0) (run : Run) (path : Text) (contents : Bytes) (mode : ℕ)
    (apart : text_eq path run.tmp ≡ false) (new : Q (new_file run.uid mode contents)) where
  Under : Disk → Type 0
  Under disk = Q (disk.lookup path)

  Held : History → Type 0
  Held h = Throughout Under h

  HeldReady : History → Type 0
  HeldReady h = Throughout Under h × (h.present.lookup run.tmp ≡ new_file run.uid mode contents)

  set_tmp-Held :
      (entry : Option Entry) (h : History) → Held h → Held (advance (set run.tmp entry h.present) h)
  unfolding Held Under
  set_tmp-Held entry h i = (rw apart i.0, i)

  same-Held : (h : History) → Held h → Held (advance h.present h)
  unfolding Held
  same-Held h i = (i.0, i)

  same-HeldReady : (h : History) → HeldReady h → HeldReady (advance h.present h)
  unfolding HeldReady
  same-HeldReady h (i, e) = ((i.0, i), e)

  ready-Held : (h : History) → HeldReady h → Held h
  unfolding Held HeldReady
  ready-Held h i = i.0

  move-Held : (h : History) → HeldReady h → Held (advance (move run.tmp path h.present) h)
  unfolding Held HeldReady Under
  move-Held h (i, e) =
      let landed : (move run.tmp path h.present).lookup path ≡ new_file run.uid mode contents =
        rw (apart, text_eq_self path) e in
      (subst Q (sym landed) new, i)

  write-Held : Leads Held (write_contents run mode contents) HeldReady Held
  unfolding Leads Ends write_contents HeldReady Held
  write-Held h i =
      if_Ends HeldReady Held run.wrote
        (advance (set run.tmp (new_file run.uid mode contents) h.present) h, ok tt)
        (
          advance (set run.tmp (new_file run.uid mode (take run.partial contents)) h.present) h,
          err io,
        )
        (set_tmp-Held (new_file run.uid mode contents) h i, rw (text_eq_self run.tmp) refl)
        (set_tmp-Held (new_file run.uid mode (take run.partial contents)) h i)

  fill-Held : Leads Held (fill run contents mode) HeldReady Held
  unfolding fill
  fill-Held =
      let stays = λ (b : Bool).
        syscall_leads HeldReady HeldReady Held b (λ disk. disk) same-HeldReady ready-Held in
      then_leads Held HeldReady HeldReady Held _ _
        (then_leads Held HeldReady HeldReady Held _ _
          (then_leads Held Held HeldReady Held _ _
            (syscall_leads Held Held Held run.chmodded _ (set_tmp-Held _) (λ h i. i)) write-Held)
          (stays run.synced))
        (stays run.kept)

  delete-Held :
      (r : History × Result Error (Unit {0}))
      → Ends HeldReady Held r
      → Ends HeldReady Held (delete_on_error run.tmp r)
  unfolding Ends
  delete-Held (h, ok a) e = e
  delete-Held (h, err f) e = set_tmp-Held none h e

  fill_or_delete-Held :
      Leads Held (λ h. delete_on_error run.tmp (fill run contents mode h)) HeldReady Held
  unfolding Leads
  fill_or_delete-Held h i = delete-Held (fill run contents mode h) (fill-Held h i)

  replace-Held : Leads HeldReady (atomic_replace run path) Held Held
  unfolding atomic_replace
  replace-Held =
      then_leads HeldReady Held Held Held _ _
        (then_leads HeldReady HeldReady Held Held _ _ (check_leads HeldReady Held path ready-Held)
          (syscall_leads HeldReady Held Held run.renamed (move run.tmp path) move-Held ready-Held))
        (syscall_leads Held Held Held run.dir_synced (λ disk. disk) same-Held (λ h i. i))

  secure_write-Held : Leads Held (secure_write run path contents mode) Held Held
  unfolding secure_write
  secure_write-Held =
      then_leads Held HeldReady Held Held _ _
        (then_leads Held Held HeldReady Held _ _
          (then_leads Held Held Held Held _ _ (check_leads Held Held path (λ h i. i))
            (syscall_leads Held Held Held run.created _ (set_tmp-Held _) (λ h i. i)))
          fill_or_delete-Held)
        replace-Held

  -- Where a predicate holds of the entry under the path in every state, and of the new file, it
  -- holds of that entry in every state that the write passes through.
  pub secure_write-Contents :
      (h : History)
      → Throughout (λ disk. Q (disk.lookup path)) h
      → Throughout (λ disk. Q (disk.lookup path)) (secure_write run path contents mode h).0
  unfolding Leads Held Under
  secure_write-Contents h i =
      ends_both Held (secure_write run path contents mode h) (secure_write-Held h i)
