-- ===== src/Ipc/Protocol/Framing.antt =====
-- A frame that was written is read back, and no frame is larger than the cap.
use mayfly_agent.Result.{ok, err, reject_if, both_ok, Result, first_ok}
use mayfly_agent.Errors.{helper_protocol, Error}
use mayfly_agent.Ipc.Protocol.{
  then_write, max_body_bytes, from_be_bytes, to_be_bytes, write_frame, read_frame, read_exact,
  write_all, Writer,
}
use mathlib.Core.List.{append_assoc}
use mayfly_agent.Prelude.{
  ℕ, zero, suc, ◌+◌, ◌-◌, ◌^◌, ◌≤◌, ◌≡◌, refl, sym, ap, ◌∙◌, inl, inr, true, false, [], ◌∷◌, ◌++◌,
  arith, ltb, leb, Bool-cases, length, take, drop, length-append,
}
use mayfly_agent.Text.Chars.{Bytes}

from_to_be_bytes : (n : ℕ) → n ≤ 1048576 → from_be_bytes (to_be_bytes n) ≡ n
unfolding from_be_bytes to_be_bytes
from_to_be_bytes n h = omega arith

take-length : (a b : Bytes) → take (length a) (a ++ b) ≡ a
take-length [] b = refl
take-length (c ∷ a) b = ap (λ s. c ∷ s) (take-length a b)

drop-length : (a b : Bytes) → drop (length a) (a ++ b) ≡ b
drop-length [] b = refl
drop-length (c ∷ a) b = drop-length a b

read_exact-append : (a b : Bytes) → read_exact (length a) (a ++ b) ≡ ok (a, b)
unfolding read_exact
read_exact-append a b =
    let fits : leb (length a) (length (a ++ b)) ≡ true = ground (arith, length-append a b) in
    rw (fits, take-length a b, drop-length a b) refl

-- What a frame of this body looks like on the wire is read back as the body, with the rest of the
-- stream untouched.
read_frame-append :
    (body rest : Bytes)
    → length body ≤ max_body_bytes
    → read_frame (to_be_bytes (length body) ++ (body ++ rest)) ≡ ok (body, rest)
unfolding read_frame to_be_bytes
read_frame-append body rest h =
    let four : read_exact 4 (to_be_bytes (length body) ++ (body ++ rest))
        ≡ ok (to_be_bytes (length body), body ++ rest) =
      read_exact-append (to_be_bytes (length body)) (body ++ rest) in
    let small : ltb max_body_bytes (length body) ≡ false = ground arith in
    rw (four, from_to_be_bytes (length body) h, small) (read_exact-append body rest)

written_all :
    (bytes : Bytes) (w v : Writer) → write_all bytes w ≡ (v, ok tt) → v.sent ≡ w.sent ++ bytes
unfolding write_all
written_all bytes w v h = elim (Bool-cases (leb (length bytes) w.room)) [
  | inl e ↦
      let p : (record w { sent = w.sent ++ bytes; room = w.room - length bytes }, ok tt)
          ≡ (v, ok tt) =
        rw e at h in
      sym (ap (λ (x : Writer × Result Error (Unit {0})). x.0.sent) p)
  | inr e ↦ absurd (let p = rw e at h in cc)
]

then_write-ok :
    (x : Writer × Result Error (Unit {0})) (k : Writer → Writer × Result Error (Unit {0}))
    (v : Writer)
    → then_write x k ≡ (v, ok tt)
    → (u : Writer) × (x ≡ (u, ok tt)) × (k u ≡ (v, ok tt))
then_write-ok (w, ok a) k v h = (w, refl, h)
then_write-ok (w, err e) k v h = absurd (cc)

-- The two writes of a frame that went through.
write_frame_gates :
    (body : Bytes) (w v : Writer)
    → write_frame body w ≡ (v, ok tt)
    → (length body ≤ max_body_bytes) × (v.sent ≡ w.sent ++ (to_be_bytes (length body) ++ body))
unfolding write_frame
write_frame_gates body w v h = elim (Bool-cases (ltb max_body_bytes (length body))) [
  | inl large ↦ absurd (let p = rw large at h in cc)
  | inr small ↦ elim (Bool-cases (leb (2 ^ 32) (length body))) [
    | inl large ↦ absurd (ground arith)
    | inr fits ↦
        let (x, first, h1) = then_write-ok _ _ v (rw (small, fits) at h) in
        let (y, second, h2) = then_write-ok _ _ v h1 in
        let sent1 = written_all (to_be_bytes (length body)) w x first in
        let sent2 = written_all body x y second in
        let flushed : y.sent ≡ v.sent =
          ap (λ (z : Writer × Result Error (Unit {0})). z.0.sent) h2 in
        let joined : v.sent ≡ (w.sent ++ to_be_bytes (length body)) ++ body =
          sym flushed ∙ sent2 ∙ ap (λ t. t ++ body) sent1 in
        (ground arith, joined ∙ append_assoc w.sent (to_be_bytes (length body)) body)
  ]
]

-- A frame that `write_frame` sends in full is read back by `read_frame` as the same body,
-- whatever follows it on the stream.
pub read_frame-write_frame :
    (body rest : Bytes) (w v : Writer)
    → write_frame body w ≡ (v, ok tt)
    → (frame : Bytes) × (v.sent ≡ w.sent ++ frame) × (read_frame (frame ++ rest) ≡ ok (body, rest))
read_frame-write_frame body rest w v h =
    let (small, sent) = write_frame_gates body w v h in
    (
      to_be_bytes (length body) ++ body,
      sent,
      ap read_frame (append_assoc (to_be_bytes (length body)) body rest)
          ∙ read_frame-append body rest small,
    )

length-take : (n : ℕ) (s : Bytes) → n ≤ length s → length (take n s) ≡ n
length-take zero s h = refl
length-take (suc n) [] h = absurd (omega arith)
length-take (suc n) (c ∷ s) h = ap suc (length-take n s (omega arith))

length-drop : (n : ℕ) (s : Bytes) → n ≤ length s → n + length (drop n s) ≡ length s
length-drop zero s h = omega arith
length-drop (suc n) [] h = absurd (omega arith)
length-drop (suc n) (c ∷ s) h = omega (arith, length-drop n s (omega arith))

read_exact_lengths :
    (n : ℕ) (s : Bytes) (x : Bytes × Bytes)
    → read_exact n s ≡ ok x
    → (length x.0 ≡ n) × (n + length x.1 ≡ length s)
unfolding read_exact
read_exact_lengths n s x h = elim (Bool-cases (leb n (length s))) [
  | inl e ↦
      let p : ok (take n s, drop n s) ≡ ok x = rw e at h in
      let same : (take n s, drop n s) ≡ x = cc in
      let fits : n ≤ length s = ground arith in
      rw⁻¹ same (length-take n s fits, length-drop n s fits)
  | inr e ↦ absurd (let p = rw e at h in cc)
]

-- A frame that is read has at most 1 MiB, whatever length its sender declared, and it is a part of
-- the stream: header, body and rest have the length of the whole.
pub read_frame_bounded :
    (stream body rest : Bytes)
    → read_frame stream ≡ ok (body, rest)
    → (length body ≤ max_body_bytes) × (4 + length body + length rest ≡ length stream)
unfolding read_frame
read_frame_bounded stream body rest h =
    let (head, (h1, header)) = first_ok (read_exact 4 stream) _ h in
    let ((_, passed), tail) =
      both_ok (reject_if (ltb max_body_bytes (from_be_bytes head.0)) helper_protocol) _ h1 in
    let (_, whole) = read_exact_lengths 4 stream head header in
    let (len, part) = read_exact_lengths (from_be_bytes head.0) head.1 (body, rest) tail in
    (ground arith, omega arith)
