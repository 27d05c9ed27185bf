-- ===== src/Security/Fate.antt =====
-- `secure_write` implements the three outcomes that the synchronisation pass reckons with.
use mayfly_agent.Security.Atomic.{secure_write-Ends, Intact, AllIntact, Landed}
use mayfly_agent.Security.Leads.{Ends}
use mayfly_agent.Security.Write.{History, Run, new_file, secure_write}
use mayfly_agent.Text.Chars.{text_eq, Text, Bytes}
use mayfly_agent.Security.{Disk, Entry}
use mayfly_agent.Protocol.CaSync.Service.{
  last_success_path, last_sync_path, signing_key_path, unsynced, fingerprint_path, lost,
  generation_path, written, WriteFate, put, content, Files, Slot,
}
use mayfly_agent.Result.{err, is_ok, ok, Result}
use mayfly_agent.Protocol.CaSync.Step.{write_result, World}
use mayfly_agent.Errors.{Error}
use mayfly_agent.Prelude.{ℕ, ◌≡◌, refl, sym, ap, ◌∙◌, ◌⊎◌, inl, inr, false, Option, none, some, []}

abbrev pub content_of : Option Entry → Option Bytes
content_of none = none
content_of (some e) = some e.content

put-content :
    (slot : Slot) (bytes : Bytes) (files : Files) → content slot (put slot bytes files) ≡ some bytes
put-content generation_path bytes files = refl
put-content fingerprint_path bytes files = refl
put-content signing_key_path bytes files = refl
put-content last_sync_path bytes files = refl
put-content last_success_path bytes files = refl

-- The two views agree on a file, and the two writes on whether they succeeded.
abbrev pub Agree :
    Slot → Option Entry → Result Error (Unit {0}) → World × Result Error (Unit {0}) → Type 0
Agree slot entry result (w, expected) =
    (content_of entry ≡ content slot w.files) × (is_ok result ≡ is_ok expected)

landed_agrees :
    (slot : Slot) (w : World) (uid mode : ℕ) (contents : Bytes) (entry : Option Entry)
    (a : Unit {0})
    → entry ≡ new_file uid mode contents
    → Agree slot entry (ok a) (write_result written slot contents w)
landed_agrees slot w uid mode contents entry a e =
    (ap content_of e ∙ sym (put-content slot contents w.files), refl)

failed_agrees :
    (slot : Slot) (w : World) (uid mode : ℕ) (contents : Bytes) (before entry : Option Entry)
    (e : Error)
    → content_of before ≡ content slot w.files
    → (entry ≡ before) ⊎ (entry ≡ new_file uid mode contents)
    → (fate : WriteFate) × Agree slot entry (err e) (write_result fate slot contents w)
failed_agrees slot w uid mode contents before entry e agree (inl same) =
    (lost, (ap content_of same ∙ agree, refl))
failed_agrees slot w uid mode contents before entry e agree (inr new) =
    (unsynced, (ap content_of new ∙ sym (put-content slot contents w.files), refl))

-- Where a state file and the file system agree and the temporary name is free, a `secure_write` on
-- the file system ends as one of the three fates of the synchronisation pass does: the two agree
-- again, and one succeeds exactly where the other does.
pub secure_write_refines :
    (run : Run) (path : Text) (contents : Bytes) (mode : ℕ) (before : Disk) (slot : Slot)
    (w : World)
    → text_eq path run.tmp ≡ false
    → before.lookup run.tmp ≡ none
    → content_of (before.lookup path) ≡ content slot w.files
    → let (h, result) =
        secure_write run path contents mode (record { present = before; past = [] }) in
      (fate : WriteFate) × Agree slot
        (h.present.lookup path)
        result
        (write_result fate slot contents w)
unfolding Ends AllIntact Intact Landed
secure_write_refines run path contents mode before slot w apart free agree =
    settle (secure_write run path contents mode (record { present = before; past = [] }))
      (secure_write-Ends run path contents mode before apart free)
  where
    settle :
        (r : History × Result Error (Unit {0}))
        → Ends
            (Landed run path contents mode before apart)
            (AllIntact run path contents mode before apart)
            r
        → (fate : WriteFate) × Agree slot
            (r.0.present.lookup path)
            r.1
            (write_result fate slot contents w)
    settle (h, ok a) (i, c, gone) = (written, landed_agrees slot w run.uid mode contents _ a c)
    settle (h, err e) i =
        failed_agrees slot w run.uid mode contents (before.lookup path) _ e agree i.0.0
