-- ===== src/Security/Lands.antt =====
-- What stands under the path when a `secure_write` succeeds.
use mayfly_agent.Errors.{io, Error}
use mayfly_agent.Text.Chars.{text_eq_self, text_eq, Bytes, Text}
use mayfly_agent.Security.Write.{
  advance, move, delete_on_error, write_contents, syscall, new_file, History, fill, atomic_replace,
  Run, secure_write,
}
use mayfly_agent.Result.{err, Result, ok}
use mayfly_agent.Security.Leads.{check_leads, syscall_leads, if_Ends, then_leads, Ends, Leads}
use mayfly_agent.Security.{set, Entry, Disk}
use mayfly_agent.Prelude.{ℕ, ◌≡◌, refl, Bool, false, Option, [], take}

module _ (run : Run) (path : Text) (contents : Bytes) (mode : ℕ)
    (apart : text_eq path run.tmp ≡ false) where
  Started : History → Type 0
  Started h = Unit {0}

  Ready : History → Type 0
  Ready h = h.present.lookup run.tmp ≡ new_file run.uid mode contents

  Done : History → Type 0
  Done h = h.present.lookup path ≡ new_file run.uid mode contents

  written_tmp :
      (disk : Disk) (entry : Option Entry) → (set run.tmp entry disk).lookup run.tmp ≡ entry
  written_tmp disk entry = rw (text_eq_self run.tmp) refl

  moved :
      (disk : Disk)
      → disk.lookup run.tmp ≡ new_file run.uid mode contents
      → (move run.tmp path disk).lookup path ≡ new_file run.uid mode contents
  moved disk e = rw (apart, text_eq_self path) e

  start_syscall : (b : Bool) (f : Disk → Disk) → Leads Started (syscall b f) Started Started
  unfolding Started
  start_syscall b f = syscall_leads Started Started Started b f (λ h i. tt) (λ h i. tt)

  write_Ready : Leads Started (write_contents run mode contents) Ready Started
  unfolding Leads Ends write_contents Started Ready
  write_Ready h i =
      if_Ends Ready Started run.wrote
        (advance (set run.tmp (new_file run.uid mode contents) h.present) h, ok tt)
        (
          advance (set run.tmp (new_file run.uid mode (take run.partial contents)) h.present) h,
          err io,
        )
        (written_tmp h.present _) tt

  sync_Ready : (b : Bool) → Leads Ready (syscall b (λ disk. disk)) Ready Started
  unfolding Started Ready
  sync_Ready b = syscall_leads Ready Ready Started b (λ disk. disk) (λ h i. i) (λ h i. tt)

  fill-Ready : Leads Started (fill run contents mode) Ready Started
  unfolding fill
  fill-Ready =
      then_leads Started Ready Ready Started _ _
        (then_leads Started Ready Ready Started _ _
          (then_leads Started Started Ready Started _ _
            (start_syscall run.chmodded (set run.tmp (new_file run.uid mode []))) write_Ready)
          (sync_Ready run.synced))
        (sync_Ready run.kept)

  delete_Ready :
      (r : History × Result Error (Unit {0}))
      → Ends Ready Started r
      → Ends Ready Started (delete_on_error run.tmp r)
  unfolding Ends Started
  delete_Ready (h, ok a) e = e
  delete_Ready (h, err f) e = tt

  fill_or_delete_Ready :
      Leads Started (λ h. delete_on_error run.tmp (fill run contents mode h)) Ready Started
  unfolding Leads
  fill_or_delete_Ready h i = delete_Ready (fill run contents mode h) (fill-Ready h i)

  replace_Done : Leads Ready (atomic_replace run path) Done Started
  unfolding atomic_replace Ready Done Started
  replace_Done =
      then_leads Ready Done Done Started _ _
        (then_leads Ready Ready Done Started _ _ (check_leads Ready Started path (λ h i. tt)) (
          syscall_leads Ready Done Started run.renamed (move run.tmp path)
            (λ h i. moved h.present i) (λ h i. tt)))
        (syscall_leads Done Done Started run.dir_synced (λ disk. disk) (λ h i. i) (λ h i. tt))

  secure_write-Done : Leads Started (secure_write run path contents mode) Done Started
  unfolding secure_write Started
  secure_write-Done =
      then_leads Started Ready Done Started _ _
        (then_leads Started Started Ready Started _ _
          (then_leads Started Started Started Started _ _
            (check_leads Started Started path (λ h i. tt))
            (start_syscall run.created (set run.tmp (new_file run.uid 0x180 []))))
          fill_or_delete_Ready)
        replace_Done

  landed :
      (r : History × Result Error (Unit {0}))
      → Ends Done Started r
      → r.1 ≡ ok tt
      → r.0.present.lookup path ≡ new_file run.uid mode contents
  unfolding Ends Done
  landed (h, ok a) e s = e
  landed (h, err f) e s = absurd (cc)

  -- From any state, a `secure_write` that succeeds leaves the complete file under its path.
  pub secure_write-lands :
      (h : History)
      → (secure_write run path contents mode h).1 ≡ ok tt
      → (secure_write run path contents mode h).0.present.lookup path
        ≡ new_file run.uid mode contents
  unfolding Leads Started
  secure_write-lands h s = landed (secure_write run path contents mode h) (secure_write-Done h tt) s
