-- ===== src/Security/Frame.antt =====
-- What a `secure_write` leaves as it is, and what stands under its path when it succeeds.
use mayfly_agent.Errors.{io, Error}
use mayfly_agent.Security.Write.{
  new_file, advance, write_contents, check_parent, syscall, fill, atomic_replace, delete_on_error,
  Act, move, History, Run, ◌>>◌, secure_write,
}
use mayfly_agent.Security.Leads.{if_Ends, check_leads, syscall_leads, then_leads, Leads, Ends}
use mayfly_agent.Result.{err, ok, Result}
use mayfly_agent.Text.Chars.{text_eq, Bytes, Text}
use mayfly_agent.Security.{set, Entry, Disk}
use mayfly_agent.Prelude.{ℕ, ◌≡◌, Bool, false, Option, none, take, All}

-- Every state satisfies `J`.
abbrev pub Throughout : (Disk → Type 0) → History → Type 0
Throughout J h = J h.present × All J h.past

pub ends_both : (I : History → Type 0) (r : History × Result Error (Unit {0})) → Ends I I r → I r.0
unfolding Ends
ends_both I (h, ok a) e = e
ends_both I (h, err f) e = e

both_end : (I : History → Type 0) (r : History × Result Error (Unit {0})) → I r.0 → Ends I I r
unfolding Ends
both_end I (h, ok a) e = e
both_end I (h, err f) e = e

module _ (I : History → Type 0) (run : Run) (path : Text) (contents : Bytes) (mode : ℕ)
    (I-set : (entry : Option Entry) (h : History)
      → I h
      → I (advance (set run.tmp entry h.present) h))
    (I-move : (h : History) → I h → I (advance (move run.tmp path h.present) h))
    (I-sync : (h : History) → I h → I (advance h.present h)) where
  keep_syscall :
      (b : Bool) (f : Disk → Disk)
      → ((h : History) → I h → I (advance (f h.present) h))
      → Leads I (syscall b f) I I
  keep_syscall b f step = syscall_leads I I I b f step (λ h i. i)

  keep_then : (m k : Act) → Leads I m I I → Leads I k I I → Leads I (m >> k) I I
  keep_then m k first second = then_leads I I I I m k first second

  keep_write : Leads I (write_contents run mode contents) I I
  unfolding Leads Ends write_contents
  keep_write h i =
      if_Ends I I run.wrote
        (advance (set run.tmp (new_file run.uid mode contents) h.present) h, ok tt)
        (
          advance (set run.tmp (new_file run.uid mode (take run.partial contents)) h.present) h,
          err io,
        )
        (I-set _ h i) (I-set _ h i)

  keep_fill : Leads I (fill run contents mode) I I
  unfolding fill
  keep_fill =
      keep_then _ _
        (keep_then _ _ (keep_then _ _ (keep_syscall run.chmodded _ (I-set _)) keep_write)
          (keep_syscall run.synced _ I-sync))
        (keep_syscall run.kept _ I-sync)

  keep_delete :
      (r : History × Result Error (Unit {0})) → Ends I I r → Ends I I (delete_on_error run.tmp r)
  unfolding Ends
  keep_delete (h, ok a) i = i
  keep_delete (h, err e) i = I-set none h i

  keep_fill_or_delete : Leads I (λ h. delete_on_error run.tmp (fill run contents mode h)) I I
  unfolding Leads
  keep_fill_or_delete h i = keep_delete (fill run contents mode h) (keep_fill h i)

  keep_check : (dst : Text) → Leads I (check_parent dst) I I
  keep_check dst = check_leads I I dst (λ h i. i)

  keep_replace : Leads I (atomic_replace run path) I I
  unfolding atomic_replace
  keep_replace =
      keep_then _ _ (keep_then _ _ (keep_check path) (keep_syscall run.renamed _ I-move))
        (keep_syscall run.dir_synced _ I-sync)

  -- What the writes under the temporary name, the rename and the syncs preserve, the whole does.
  pub secure_write-Keeps : (h : History) → I h → I (secure_write run path contents mode h).0
  unfolding secure_write Leads
  secure_write-Keeps h i = ends_both I (secure_write run path contents mode h) (
      keep_then _ _
        (keep_then _ _ (keep_then _ _ (keep_check path) (keep_syscall run.created _ (I-set _)))
          keep_fill_or_delete)
        keep_replace h i)

-- A predicate that they preserve holds of every state that the file system passes through.
pub secure_write-Throughout :
    (J : Disk → Type 0) (run : Run) (path : Text) (contents : Bytes) (mode : ℕ)
    → ((disk : Disk) (entry : Option Entry) → J disk → J (set run.tmp entry disk))
    → ((disk : Disk) → J disk → J (move run.tmp path disk))
    → (h : History) → Throughout J h
    → Throughout J (secure_write run path contents mode h).0
secure_write-Throughout J run path contents mode J-set J-move =
    secure_write-Keeps (Throughout J) run path contents mode
      (λ entry h i. (J-set h.present entry i.0, i)) (λ h i. (J-move h.present i.0, i))
      (λ h i. (i.0, i))

-- A file that stands under a name and can be read.
abbrev pub Stands : Text → Option Entry → Disk → Type 0
Stands path entry disk = (disk.lookup path ≡ entry) × (disk.unreadable path ≡ false)

-- A `secure_write` leaves all names alone but its path and the temporary one.
pub secure_write-Stands :
    (p : Text) (entry : Option Entry) (run : Run) (path : Text) (contents : Bytes) (mode : ℕ)
    (h : History)
    → text_eq p path ≡ false
    → text_eq p run.tmp ≡ false
    → Throughout (Stands p entry) h
    → Throughout (Stands p entry) (secure_write run path contents mode h).0
secure_write-Stands p entry run path contents mode h a b i =
    secure_write-Throughout (Stands p entry) run path contents mode (λ disk new j. (rw b j.0, j.1))
      (λ disk j. (rw (b, a) j.0, j.1)) h i
