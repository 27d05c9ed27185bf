-- ===== src/Tests/Writes.antt =====
-- Instances of the theorems on the atomic write.
use mayfly_agent.Security.Fate.{secure_write_refines, Agree, content_of}
use mayfly_agent.Security.Atomic.{secure_write_atomic, AllIntact}
use mayfly_agent.Protocol.CaSync.Step.{write_result, World}
use mayfly_agent.Security.Write.{new_file, Run, secure_write}
use mayfly_agent.Result.{ok}
use mayfly_agent.Protocol.CaSync.Service.{generation_path, WriteFate}
use mayfly_agent.Security.{file, mode_public, Entry, Disk}
use mayfly_agent.Text.Chars.{Text, codes, text_eq}
use mayfly_agent.Prelude.{◌≡◌, refl, true, false, none, some, [], if◌then◌else◌}

-- Every call succeeds but the last `fsync`.
abbrev pub run : Run
run = record {
  tmp = codes "/s/.tmp1";
  uid = 0;
  created = true;
  chmodded = true;
  wrote = true;
  partial = 0;
  synced = true;
  kept = true;
  renamed = true;
  dir_synced = false;
}

abbrev pub target : Text
target = codes "/s/current_generation"

abbrev pub old_entry : Entry
old_entry = record { kind = file; uid = 0; mode = mode_public; content = codes "3" }

abbrev pub disk : Disk
disk = record {
  lookup = λ p. if text_eq p target then some old_entry else none;
  unreadable = λ p. false;
}

apart : text_eq target run.tmp ≡ false
unfolding text_eq
apart = refl

free : disk.lookup run.tmp ≡ none
unfolding text_eq
free = refl

agree : content_of (disk.lookup target) ≡ some (codes "3")
unfolding text_eq
agree = refl

secure_write_atomic_example :
    let (h, result) =
      secure_write run target (codes "4") mode_public (record { present = disk; past = [] }) in
    AllIntact run target (codes "4") mode_public disk apart h
    × (result ≡ ok tt
        → (h.present.lookup target ≡ new_file 0 mode_public (codes "4"))
          × (h.present.lookup run.tmp ≡ none))
secure_write_atomic_example = secure_write_atomic run target (codes "4") mode_public disk apart free

abbrev state_files : World
state_files = record {
  files = record {
    generation = some (codes "3");
    fingerprint = none;
    signing_key = none;
    last_sync = none;
    last_success = none;
  };
  delegated = [];
  reports = [];
}

secure_write_refines_example :
    let (h, result) =
      secure_write run target (codes "4") mode_public (record { present = disk; past = [] }) in
    (fate : WriteFate) × Agree generation_path
      (h.present.lookup target)
      result
      (write_result fate generation_path (codes "4") state_files)
secure_write_refines_example =
    secure_write_refines run target (codes "4") mode_public disk generation_path state_files apart
      free agree
