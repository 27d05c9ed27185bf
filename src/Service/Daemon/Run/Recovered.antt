-- ===== src/Service/Daemon/Run/Recovered.antt =====
-- src/service/daemon.rs: what `run` has read when it starts to work.
use mayfly_agent.Security.Store.{followed_link, Os, is_regular}
use mayfly_agent.Service.RuntimeState.{
  read_optional_file, optional_content, read_optional_text, text_of, generation_or_zero,
  current_generation,
}
use mayfly_agent.Errors.{io, machine_record_invalid, Error}
use mayfly_agent.Prelude.{
  ℕ, ◌≡◌, sym, ap, ◌∙◌, Bool, true, false, Option, none, some, arith, if◌then◌else◌,
}
use mayfly_agent.Security.{Disk, Entry}
use mayfly_agent.Security.Keeps.{and_then-ok}
use mathlib.Core.Path.{subst}
use mayfly_agent.Service.Daemon.Run.{prepared, Startup, recover, content_of, content_at}
use mayfly_agent.Result.{◌>>=◌, err, ok, Result, ok_or-eq-ok}
use mayfly_agent.Text.Trim.{trim}
use mayfly_agent.Text.Decimal.{parse_u64}
use mayfly_agent.Protocol.CaSync.Load.{trimmed_text, parse_generation}
use mayfly_agent.Protocol.CaSync.Reported.{Covers, stored}
use mayfly_agent.Service.Daemon.Bookkeeping.{Prepared}
use mayfly_agent.Identity.Machine.{MachineIdentity}
use mayfly_agent.Text.Chars.{Bytes, Text}
use mayfly_agent.Float.{Floats}
use mayfly_agent.Security.Write.{History}

parsed-Covers :
    (text : Option Text) (g : ℕ)
    → generation_or_zero (ok text) ≡ ok g
    → Covers (parse_generation text) g
unfolding parse_generation
parsed-Covers none g e = let zero_g : 0 ≡ g = cc in sym zero_g
parsed-Covers (some text) g e =
    rw (ok_or-eq-ok machine_record_invalid (parse_u64 (trim text)) e) (omega arith)

trimmed-Covers :
    (r : Result Error (Option Text)) (g : ℕ)
    → generation_or_zero r ≡ ok g
    → Covers (r >>= parse_generation) g
trimmed-Covers (err e) g h = absurd (cc)
trimmed-Covers (ok text) g h = parsed-Covers text g h

regular-Covers :
    (regular : Bool) (content : Bytes) (g : ℕ)
    → generation_or_zero (text_of (if regular then ok (some content) else err io)) ≡ ok g
    → Covers (stored (if regular then some content else none)) g
unfolding stored
regular-Covers false content g h = absurd (cc)
regular-Covers true content g h = trimmed-Covers (trimmed_text (some content)) g h

entry-Covers :
    (entry : Option Entry) (g : ℕ)
    → generation_or_zero (text_of (optional_content entry)) ≡ ok g
    → Covers (stored (content_of entry)) g
unfolding stored
entry-Covers none g h = trimmed-Covers (trimmed_text none) g h
entry-Covers (some e) g h = regular-Covers (is_regular e.kind) e.content g h

readable-Covers :
    (readable : Bool) (entry : Option Entry) (g : ℕ)
    → generation_or_zero (text_of (if readable then optional_content entry else err io)) ≡ ok g
    → Covers (stored (content_of entry)) g
readable-Covers false entry g h = absurd (cc)
readable-Covers true entry g h = entry-Covers entry g h

-- What `read_generation` reads is what stands on disk.
pub content-Covers :
    (os : Os) (path : Text) (disk : Disk) (g : ℕ)
    → generation_or_zero (read_optional_text os path disk) ≡ ok g
    → Covers (stored (content_at os path disk)) g
unfolding read_optional_text read_optional_file
content-Covers os path disk g h =
    readable-Covers (os.readable path) (followed_link os path (disk.lookup path)) g h

module _ (fl : Floats) (start : Startup fl) where
  abbrev pub HasRead : History → ℕ → Type 0
  HasRead h g =
      current_generation fl (start.enroll.outside 0).os start.state.config h.present ≡ ok g

  pub recover-reads :
      (identity : MachineIdentity) (h after : History) (p : Prepared fl) (g : ℕ)
      → recover fl start identity h ≡ (after, ok (p, g))
      → HasRead after g × (p.config ≡ start.state.config)
  unfolding recover
  recover-reads identity h after p g e =
      let (k1, _, h1) = and_then-ok _ _ after e in
      let (k2, _, h2) = and_then-ok _ _ after h1 in
      let (g2, read, h3) = and_then-ok _ _ after h2 in
      let (_, _, h4) = and_then-ok _ _ after h3 in
      let (_, _, h5) = and_then-ok _ _ after h4 in
      let (_, _, h6) = and_then-ok _ _ after h5 in
      let same = ap (λ (t : History × Result Error (Prepared fl × ℕ)). t.0) h6 in
      let results = ap (λ (t : History × Result Error (Prepared fl × ℕ)). t.1) h6 in
      let g_eq : g2 ≡ g = cc in
      let p_eq : prepared fl start identity k1 k2 ≡ p = cc in
      let now_read : HasRead after g = subst (λ x. HasRead x g) same (read ∙ ap ok g_eq) in
      (now_read, ap (λ (q : Prepared fl). q.config) (sym p_eq))
