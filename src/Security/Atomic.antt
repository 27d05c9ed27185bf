-- ===== src/Security/Atomic.antt =====
-- What the file system passes through while `secure_write` runs.
use mayfly_agent.Security.Leads.{if_Ends, check_leads, syscall_leads, then_leads, Leads, Ends}
use mayfly_agent.Errors.{io, Error}
use mayfly_agent.Security.Write.{
  secure_write, fill, delete_on_error, atomic_replace, write_contents, move, new_file, syscall,
  check_parent, advance, Run, History, ◌>>◌,
}
use mayfly_agent.Text.Chars.{text_eq_self, text_eq, Bytes, Text}
use mayfly_agent.Security.{set, Entry, Disk}
use mayfly_agent.Result.{err, ok, Result}
use mayfly_agent.Prelude.{
  ℕ, ◌≡◌, refl, ◌∙◌, ◌⊎◌, inl, inr, Bool, false, Option, none, [], take, All,
}

module _ (run : Run) (path : Text) (contents : Bytes) (mode : ℕ) (before : Disk)
    (apart : text_eq path run.tmp ≡ false) where
  abbrev pub complete : Option Entry
  complete = new_file run.uid mode contents

  -- What stands under the temporary name: nothing, an empty file that only its owner can read, or
  -- a file with the final mode.
  abbrev pub Tmp : Option Entry → Type 0
  Tmp entry =
      (entry ≡ none)
      ⊎ (entry ≡ new_file run.uid 0x180 [])
      ⊎ ((bytes : Bytes) × (entry ≡ new_file run.uid mode bytes))

  -- Under `path` stands the old entry or the complete new file, and the other names are untouched.
  unfoldable pub Intact : Disk → Type 0
  Intact disk =
      ((disk.lookup path ≡ before.lookup path) ⊎ (disk.lookup path ≡ complete))
      × Tmp (disk.lookup run.tmp)
      × ((p : Text)
          → text_eq p path ≡ false
          → text_eq p run.tmp ≡ false
          → disk.lookup p ≡ before.lookup p)

  -- Every state that the file system passed through is intact.
  unfoldable pub AllIntact : History → Type 0
  AllIntact h = Intact h.present × All Intact h.past

  Drafting : History → Type 0
  Drafting h = AllIntact h × (h.present.lookup path ≡ before.lookup path)

  Drafted : History → Type 0
  Drafted h =
      AllIntact h
      × (h.present.lookup path ≡ before.lookup path)
      × (h.present.lookup run.tmp ≡ complete)

  -- The new file is in place, and the temporary name is gone.
  unfoldable pub Landed : History → Type 0
  Landed h = AllIntact h × (h.present.lookup path ≡ complete) × (h.present.lookup run.tmp ≡ none)

  set_tmp-path :
      (disk : Disk) (entry : Option Entry) → (set run.tmp entry disk).lookup path ≡ disk.lookup path
  set_tmp-path disk entry = rw apart refl

  set_tmp-tmp :
      (disk : Disk) (entry : Option Entry) → (set run.tmp entry disk).lookup run.tmp ≡ entry
  set_tmp-tmp disk entry = rw (text_eq_self run.tmp) refl

  set_tmp-Intact :
      (disk : Disk) (entry : Option Entry)
      → Intact disk
      → Tmp entry
      → Intact (set run.tmp entry disk)
  unfolding Intact
  set_tmp-Intact disk entry (here, tmp, others) t =
      (rw apart here, rw (text_eq_self run.tmp) t, λ p a b. rw b (others p a b))

  move-Intact :
      (disk : Disk) → Intact disk → disk.lookup run.tmp ≡ complete → Intact (move run.tmp path disk)
  unfolding Intact
  move-Intact disk (here, tmp, others) c = (
    rw (apart, text_eq_self path) (inr c),
    rw (text_eq_self run.tmp) (inl refl),
    λ p a b. rw (b, a) (others p a b),
  )

  advance-AllIntact :
      (h : History) (disk : Disk) → AllIntact h → Intact disk → AllIntact (advance disk h)
  unfolding AllIntact
  advance-AllIntact h disk (i, a) j = (j, (i, a))

  draft :
      (h : History) (entry : Option Entry)
      → Drafting h
      → Tmp entry
      → Drafting (advance (set run.tmp entry h.present) h)
  unfolding Drafting AllIntact
  draft h entry (a, old) t = (
    advance-AllIntact h _ a (set_tmp-Intact h.present entry a.0 t),
    set_tmp-path h.present entry ∙ old,
  )

  draft_leads :
      (b : Bool) (entry : Option Entry)
      → Tmp entry
      → Leads Drafting (syscall b (set run.tmp entry)) Drafting Drafting
  draft_leads b entry t =
      syscall_leads Drafting Drafting Drafting b (set run.tmp entry) (λ h d. draft h entry d t)
        (λ h d. d)

  write_leads : Leads Drafting (write_contents run mode contents) Drafted Drafting
  unfolding Leads Ends Drafted Drafting write_contents
  write_leads h d =
      if_Ends Drafted Drafting run.wrote (advance (set run.tmp complete h.present) h, ok tt)
        (
          advance (set run.tmp (new_file run.uid mode (take run.partial contents)) h.present) h,
          err io,
        )
        (
          (draft h complete d (inr (inr (contents, refl)))).0,
          (draft h complete d (inr (inr (contents, refl)))).1,
          set_tmp-tmp h.present complete,
        )
        (draft h (new_file run.uid mode (take run.partial contents)) d
          (inr (inr (take run.partial contents, refl))))

  same_leads : (b : Bool) → Leads Drafted (syscall b (λ disk. disk)) Drafted Drafting
  unfolding Drafted Drafting AllIntact
  same_leads b =
      syscall_leads Drafted Drafted Drafting b (λ disk. disk)
        (λ h d. (advance-AllIntact h h.present d.0 d.0.0, d.1, d.2)) (λ h d. (d.0, d.1))

  fill_leads : Leads Drafting (fill run contents mode) Drafted Drafting
  unfolding fill
  fill_leads =
      then_leads Drafting Drafted Drafted Drafting
        (syscall run.chmodded (set run.tmp (new_file run.uid mode []))
          >> write_contents run mode contents
          >> syscall run.synced (λ disk. disk))
        (syscall run.kept (λ disk. disk))
        (then_leads Drafting Drafted Drafted Drafting
          (syscall run.chmodded (set run.tmp (new_file run.uid mode []))
            >> write_contents run mode contents)
          (syscall run.synced (λ disk. disk))
          (then_leads Drafting Drafting Drafted Drafting
            (syscall run.chmodded (set run.tmp (new_file run.uid mode [])))
            (write_contents run mode contents)
            (draft_leads run.chmodded (new_file run.uid mode []) (inr (inr ([], refl))))
            write_leads)
          (same_leads run.synced))
        (same_leads run.kept)

  cleaned :
      (r : History × Result Error (Unit {0}))
      → Ends Drafted Drafting r
      → Ends Drafted Drafting (delete_on_error run.tmp r)
  unfolding Ends
  cleaned (h, ok a) e = e
  cleaned (h, err f) e = draft h none e (inl refl)

  replace_leads : Leads Drafted (atomic_replace run path) Landed AllIntact
  unfolding atomic_replace Drafted Landed AllIntact
  replace_leads =
      then_leads Drafted Landed Landed AllIntact
        (check_parent path >> syscall run.renamed (move run.tmp path))
        (syscall run.dir_synced (λ disk. disk))
        (then_leads Drafted Drafted Landed AllIntact (check_parent path)
          (syscall run.renamed (move run.tmp path))
          (check_leads Drafted AllIntact path (λ h d. d.0))
          (syscall_leads Drafted Landed AllIntact run.renamed (move run.tmp path)
            (λ h d. renamed h d) (λ h d. d.0)))
        (syscall_leads Landed Landed AllIntact run.dir_synced (λ disk. disk)
          (λ h d. (advance-AllIntact h h.present d.0 d.0.0, d.1, d.2)) (λ h d. d.0))
    where
      renamed : (h : History) → Drafted h → Landed (advance (move run.tmp path h.present) h)
      renamed h (a, old, c) = (
        advance-AllIntact h _ a (move-Intact h.present a.0 c),
        rw (apart, text_eq_self path) c,
        rw (text_eq_self run.tmp) refl,
      )

  forget_draft :
      (r : History × Result Error (Unit {0})) → Ends Drafted Drafting r → Ends Drafted AllIntact r
  unfolding Ends Drafting
  forget_draft (h, ok a) e = e
  forget_draft (h, err f) e = e.0

  fill_or_delete :
      Leads Drafting (λ h. delete_on_error run.tmp (fill run contents mode h)) Drafted AllIntact
  unfolding Leads
  fill_or_delete h d = forget_draft _ (cleaned (fill run contents mode h) (fill_leads h d))

  secure_write_leads : Leads Drafting (secure_write run path contents mode) Landed AllIntact
  unfolding secure_write Drafting
  secure_write_leads =
      then_leads Drafting Drafted Landed AllIntact
        (check_parent path
          >> syscall run.created (set run.tmp (new_file run.uid 0x180 []))
          >> (λ h. delete_on_error run.tmp (fill run contents mode h)))
        (atomic_replace run path)
        (then_leads Drafting Drafting Drafted AllIntact
          (check_parent path >> syscall run.created (set run.tmp (new_file run.uid 0x180 [])))
          (λ h. delete_on_error run.tmp (fill run contents mode h))
          (then_leads Drafting Drafting Drafting AllIntact (check_parent path)
            (syscall run.created (set run.tmp (new_file run.uid 0x180 [])))
            (check_leads Drafting AllIntact path (λ h d. d.0))
            (syscall_leads Drafting Drafting AllIntact run.created
              (set run.tmp (new_file run.uid 0x180 []))
              (λ h d. draft h (new_file run.uid 0x180 []) d (inr (inl refl))) (λ h d. d.0)))
          fill_or_delete)
        replace_leads

  conclude :
      (r : History × Result Error (Unit {0}))
      → Ends Landed AllIntact r
      → AllIntact r.0
        × (r.1 ≡ ok tt → (r.0.present.lookup path ≡ complete) × (r.0.present.lookup run.tmp ≡ none))
  unfolding Ends Landed
  conclude (h, ok a) (i, here, gone) = (i, λ _. (here, gone))
  conclude (h, err e) i = (i, λ wrong. absurd (cc))

  pub secure_write-Ends :
      before.lookup run.tmp ≡ none
      → Ends Landed AllIntact
          (secure_write run path contents mode (record { present = before; past = [] }))
  unfolding AllIntact Leads Drafting Intact
  secure_write-Ends free =
      secure_write_leads (record { present = before; past = [] })
        (((inl refl, inl free, λ p a b. refl), tt), refl)

  -- Where the temporary name is free, every state that the file system passes through has the old
  -- entry or the complete new file under `path`, no more than an empty file of mode 0600 or a file
  -- of the final mode under the temporary name, and all other names as before; and where the call
  -- succeeds, the new file stands under `path` and the temporary name is free again.
  pub secure_write_atomic :
      before.lookup run.tmp ≡ none
      → let (h, result) =
          secure_write run path contents mode (record { present = before; past = [] }) in
        AllIntact h
        × (result ≡ ok tt → (h.present.lookup path ≡ complete) × (h.present.lookup run.tmp ≡ none))
  unfolding AllIntact Leads Drafting Intact
  secure_write_atomic free =
      conclude (secure_write run path contents mode (record { present = before; past = [] }))
        (secure_write-Ends free)
