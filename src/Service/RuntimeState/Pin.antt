-- ===== src/Service/RuntimeState/Pin.antt =====
-- When the enrollment's key becomes the pin.
use mayfly_agent.Security.Lands.{secure_write-lands}
use mayfly_agent.Service.RuntimeState.{
  bundle_signing_key_path, Config, pin_key, pin_bundle_signing_key, pin_if_absent,
  pin_unless_configured, read_optional_text,
}
use mayfly_agent.Result.{err, ok, Result}
use mayfly_agent.Security.Store.{pure, and_then, Os}
use mayfly_agent.Text.Trim.{trim}
use mayfly_agent.Text.Utf8.{as_bytes}
use mayfly_agent.Security.{mode_public}
use mayfly_agent.Security.Write.{new_file, History, Run, secure_write}
use mayfly_agent.Errors.{Error}
use mayfly_agent.Text.Chars.{text_eq, Text}
use mayfly_agent.Float.{Floats}
use mayfly_agent.Prelude.{
  ◌≡◌, refl, ◌⊎◌, inl, inr, Bool, true, false, Option, none, some, [], ◌∷◌, ◌++◌,
}

-- The key was written where neither the configuration nor the file had one, or nothing changed.
abbrev pub PinCases :
    Os → Run → Text → Option Text → Option Text → History → History → Bool → Type 0
PinCases os run path configured key before after pinned =
    ((pinned ≡ false) × (after ≡ before))
    ⊎ ((pinned ≡ true)
        × (configured ≡ none)
        × (read_optional_text os path before.present ≡ ok none)
        × ((k : Text) × (key ≡ some k)
            × (after.present.lookup path
                ≡ new_file run.uid mode_public (as_bytes (trim k ++ 10 ∷ [])))))

module _ (fl : Floats) (os : Os) (run : Run) (path : Text)
    (apart : text_eq path run.tmp ≡ false) where
  written_pin :
      (k : Text) (h : History) (r : History × Result Error (Unit {0})) (pinned : Bool)
      → read_optional_text os path h.present ≡ ok none
      → (r.1 ≡ ok tt
          → r.0.present.lookup path ≡ new_file run.uid mode_public (as_bytes (trim k ++ 10 ∷ [])))
      → (and_then r (λ _. pure (ok true))).1 ≡ ok pinned
      → PinCases os run path none (some k) h (and_then r (λ _. pure (ok true))).0 pinned
  unfolding and_then
  written_pin k h (after, err e) pinned blank lands done = absurd (cc)
  written_pin k h (after, ok u) pinned blank lands done =
      inr (cc, refl, blank, (k, refl, lands refl))

  absent_pin :
      (k : Text) (h : History) (recorded : Option Text) (pinned : Bool)
      → read_optional_text os path h.present ≡ ok recorded
      → (pin_if_absent fl run path k recorded h).1 ≡ ok pinned
      → PinCases os run path none (some k) h (pin_if_absent fl run path k recorded h).0 pinned
  absent_pin k h (some recorded) pinned e done = inl (cc, refl)
  absent_pin k h none pinned e done =
      written_pin k h (secure_write run path (as_bytes (trim k ++ 10 ∷ [])) mode_public h) pinned e
        (secure_write-lands run path (as_bytes (trim k ++ 10 ∷ [])) mode_public apart h) done

  read_then_pin :
      (k : Text) (h : History) (r : Result Error (Option Text)) (pinned : Bool)
      → read_optional_text os path h.present ≡ r
      → (and_then (h, r) (pin_if_absent fl run path k)).1 ≡ ok pinned
      → PinCases os run path none
          (some k)
          h
          (and_then (h, r) (pin_if_absent fl run path k)).0
          pinned
  unfolding and_then
  read_then_pin k h (err e) pinned is done = absurd (cc)
  read_then_pin k h (ok recorded) pinned is done = absent_pin k h recorded pinned is done

  pin_cases :
      (configured key : Option Text) (h : History) (pinned : Bool)
      → (pin_unless_configured fl configured (pin_key fl os run path key) h).1 ≡ ok pinned
      → PinCases os run path configured key h
          (pin_unless_configured fl configured (pin_key fl os run path key) h).0
          pinned
  pin_cases (some c) key h pinned done = inl (cc, refl)
  pin_cases none none h pinned done = inl (cc, refl)
  pin_cases none (some k) h pinned done =
      read_then_pin k h (read_optional_text os path h.present) pinned refl done

-- Where `pin_bundle_signing_key` returns, it returns false and has changed nothing, or it returns
-- true, no key was configured, the file was missing or blank, and now it holds the server's key,
-- trimmed, and a line feed. It is assumed that the file's path is not the temporary one of the
-- write.
pub pin_bundle_signing_key_sound :
    (fl : Floats) (os : Os) (run : Run) (config : Config fl) (key : Option Text) (h : History)
    (pinned : Bool)
    → text_eq (bundle_signing_key_path fl config) run.tmp ≡ false
    → (pin_bundle_signing_key fl os run config key h).1 ≡ ok pinned
    → PinCases os run
        (bundle_signing_key_path fl config)
        config.bundle_signing_public_key
        key
        h
        (pin_bundle_signing_key fl os run config key h).0
        pinned
unfolding pin_bundle_signing_key
pin_bundle_signing_key_sound fl os run config key h pinned apart done =
    pin_cases fl os run (bundle_signing_key_path fl config) apart config.bundle_signing_public_key
      key h pinned done
