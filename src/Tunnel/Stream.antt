-- ===== src/Tunnel/Stream.antt =====
-- De-framing a TCP stream: how the bytes are cut into reads does not matter, and framing is undone.
use crossover.Prelude.{
  ℕ, zero, suc, ◌+◌, ◌/◌, ◌%◌, ◌≤◌, ◌<◌, ◌≡◌, ◌≢◌, refl, sym, ap, ◌∙◌, true, false, List, [], ◌∷◌,
  ◌++◌, length, take, drop, ltb, ltb→lt, if◌then◌else◌, length-append, length-drop, take-append_le,
  drop-append_le, append_assoc, Bool-cases, inl, inr, All, arith, take-append_eq, drop-append_eq,
}
use crossover.Tunnel.Framing.{
  max_datagram, frame_header, frame, frame_length, bad_length, waiting, bad_frame, out_of_fuel,
  Drained, stopped, deliver, deliver_all, drain, deframe, frames,
}

-- More fuel than bytes makes no difference.
drain-deframe_bounded :
    (n f g : ℕ) (buf : List ℕ)
    → length buf < n
    → length buf < f
    → length buf < g
    → drain f buf ≡ drain g buf
unfolding drain
drain-deframe_bounded zero f g buf h p q = absurd (omega arith)
drain-deframe_bounded (suc n) zero g buf h p q = absurd (omega arith)
drain-deframe_bounded (suc n) (suc f) zero buf h p q = absurd (omega arith)
drain-deframe_bounded (suc n) (suc f) (suc g) [] h p q = refl
drain-deframe_bounded (suc n) (suc f) (suc g) (b ∷ []) h p q = refl
drain-deframe_bounded (suc n) (suc f) (suc g) (high ∷ low ∷ body) h p q = ground (
  arith,
  drain-deframe_bounded n f g (drop (frame_length high low) body),
  length-drop (frame_length high low) body,
)

-- One round of the loop.
pub deframe_lem :
    (high low : ℕ) (body : List ℕ)
    → deframe (high ∷ low ∷ body) ≡ (
        if bad_length (frame_length high low)
        then stopped (high ∷ low ∷ body) bad_frame
        else if ltb (length body) (frame_length high low)
        then stopped (high ∷ low ∷ body) waiting
        else deliver
            (take (frame_length high low) body)
            (deframe (drop (frame_length high low) body)))
unfolding deframe drain
deframe_lem high low body =
    let rest : List ℕ = drop (frame_length high low) body in
    ground (
      arith,
      drain-deframe_bounded (suc (length rest)) (suc (suc (length body))) (suc (length rest)) rest,
      length-drop (frame_length high low) body,
    )

-- Going on with more bytes after a stop.
pub resume : Drained → List ℕ → Drained
resume r ys = elim r.status [
  | waiting ↦ deliver_all r.datagrams (deframe (r.rest ++ ys))
  | bad_frame ↦ record r { rest = r.rest ++ ys }
  | out_of_fuel ↦ r
]

resume-deliver :
    (d : List ℕ) (r : Drained) (ys : List ℕ) → resume (deliver d r) ys ≡ deliver d (resume r ys)
unfolding resume
resume-deliver d r ys = ground arith

pub deframe_nil : deframe [] ≡ stopped [] waiting
unfolding deframe drain
deframe_nil = refl

deframe_one : (b : ℕ) → deframe (b ∷ []) ≡ stopped (b ∷ []) waiting
unfolding deframe drain
deframe_one b = refl

resume-waiting : (xs ys : List ℕ) → resume (stopped xs waiting) ys ≡ deframe (xs ++ ys)
unfolding resume
resume-waiting xs ys = refl

resume-bad_frame :
    (xs ys : List ℕ) → resume (stopped xs bad_frame) ys ≡ stopped (xs ++ ys) bad_frame
unfolding resume
resume-bad_frame xs ys = refl

-- The three outcomes of a round.
deframe_bad :
    (high low : ℕ) (body : List ℕ)
    → bad_length (frame_length high low) ≡ true
    → deframe (high ∷ low ∷ body) ≡ stopped (high ∷ low ∷ body) bad_frame
deframe_bad high low body h = deframe_lem high low body ∙ rw h refl

deframe_short :
    (high low : ℕ) (body : List ℕ)
    → bad_length (frame_length high low) ≡ false
    → length body < frame_length high low
    → deframe (high ∷ low ∷ body) ≡ stopped (high ∷ low ∷ body) waiting
deframe_short high low body h p = ground (arith, deframe_lem high low body)

deframe_whole :
    (high low : ℕ) (body : List ℕ)
    → bad_length (frame_length high low) ≡ false
    → frame_length high low ≤ length body
    → deframe (high ∷ low ∷ body)
      ≡ deliver (take (frame_length high low) body) (deframe (drop (frame_length high low) body))
deframe_whole high low body h p = ground (arith, deframe_lem high low body)

append_step :
    (high low : ℕ) (body ys : List ℕ)
    → deframe (drop (frame_length high low) body ++ ys)
      ≡ resume (deframe (drop (frame_length high low) body)) ys
    → deframe (high ∷ low ∷ (body ++ ys)) ≡ resume (deframe (high ∷ low ∷ body)) ys
append_step high low body ys ih = elim (Bool-cases (bad_length len)) [
  | inl bad ↦
      deframe_bad high low (body ++ ys) bad
      ∙ sym (ap (λ r. resume r ys) (deframe_bad high low body bad) ∙ resume-bad_frame _ ys)
  | inr good ↦ elim (Bool-cases (ltb (length body) len)) [
    | inl short ↦ sym (
        ap (λ r. resume r ys) (deframe_short high low body good (ltb→lt _ _ short))
        ∙ resume-waiting _ ys)
    | inr whole ↦
        let enough : len ≤ length body = ground arith in
        deframe_whole high low (body ++ ys) good (omega (arith, length-append body ys))
        ∙ rw (take-append_le len body ys enough, drop-append_le len body ys enough, ih)
            (sym (
              ap (λ r. resume r ys) (deframe_whole high low body good enough)
              ∙ resume-deliver _ _ ys))
  ]
]
  where
    len : ℕ
    len = frame_length high low

append_bounded :
    (n : ℕ) (xs ys : List ℕ) → length xs < n → deframe (xs ++ ys) ≡ resume (deframe xs) ys
append_bounded zero xs ys h = absurd (omega arith)
append_bounded (suc n) [] ys h = sym (ap (λ r. resume r ys) deframe_nil ∙ resume-waiting [] ys)
append_bounded (suc n) (b ∷ []) ys h =
    sym (ap (λ r. resume r ys) (deframe_one b) ∙ resume-waiting (b ∷ []) ys)
append_bounded (suc n) (high ∷ low ∷ body) ys h =
    let rest : List ℕ = drop (frame_length high low) body in
    append_step high low body ys
      (append_bounded n rest ys (omega (arith, length-drop (frame_length high low) body)))

-- De-framing more bytes is going on from where the loop stopped: what was delivered stays
-- delivered, what was left over comes first, and nothing is read past a bad frame length.
pub deframe-append : (xs ys : List ℕ) → deframe (xs ++ ys) ≡ resume (deframe xs) ys
deframe-append xs ys = append_bounded (suc (length xs)) xs ys (omega arith)

fuelled_bounded : (n : ℕ) (buf : List ℕ) → length buf < n → (deframe buf).status ≢ out_of_fuel
fuelled_bounded zero buf h = absurd (omega arith)
fuelled_bounded (suc n) [] h = rw deframe_nil (λ e. cc)
fuelled_bounded (suc n) (b ∷ []) h = rw (deframe_one b) (λ e. cc)
fuelled_bounded (suc n) (high ∷ low ∷ body) h = ground (
  arith,
  deframe_lem high low body,
  fuelled_bounded n (drop (frame_length high low) body),
  length-drop (frame_length high low) body,
)

-- The de-framing loop ends by one of its two exits for every buffer: it waits for more bytes, or
-- it found a bad length.
pub deframe_ends : (buf : List ℕ) → (deframe buf).status ≢ out_of_fuel
deframe_ends buf = fuelled_bounded (suc (length buf)) buf (omega arith)

rest_bounded :
    (n : ℕ) (buf : List ℕ)
    → length buf < n
    → (deframe buf).status ≡ waiting
    → length (deframe buf).rest < frame_header + max_datagram
rest_bounded zero buf h w = absurd (omega arith)
rest_bounded (suc n) [] h w = rw deframe_nil (omega arith)
rest_bounded (suc n) (b ∷ []) h w = rw (deframe_one b) (omega arith)
rest_bounded (suc n) (high ∷ low ∷ body) h w = ground (
  arith,
  deframe_lem high low body,
  rest_bounded n (drop (frame_length high low) body),
  length-drop (frame_length high low) body,
)

-- While the loop waits for more, what is left in the buffer is less than one largest frame.
pub deframe-rest-lt :
    (buf : List ℕ)
    → (deframe buf).status ≡ waiting
    → length (deframe buf).rest < frame_header + max_datagram
deframe-rest-lt buf w = rest_bounded (suc (length buf)) buf (omega arith) w

-- What the two ends send: not empty, and no longer than the largest datagram.
abbrev pub IsDatagram : List ℕ → Type 0
IsDatagram d = (0 < length d) × (length d ≤ max_datagram)

deframe-frame :
    (d more : List ℕ) → IsDatagram d → deframe (frame d ++ more) ≡ deliver d (deframe more)
unfolding frame
deframe-frame d more h =
    let n : ℕ = length d in
    let e : frame_length (n / 256 % 256) (n % 256) ≡ n = omega arith in
    ground (
      arith,
      e,
      deframe_lem (n / 256 % 256) (n % 256) (d ++ more),
      length-append d more,
      take-append_eq n d more refl,
      drop-append_eq n d more refl,
    )

-- Framing is undone: the frames of any datagrams yield just these, in order, with nothing left over,
-- and then whatever follows them.
pub deframe-frames :
    (ds : List (List ℕ)) (more : List ℕ)
    → All IsDatagram ds
    → deframe (frames ds ++ more) ≡ deliver_all ds (deframe more)
deframe-frames [] more h = refl
deframe-frames (d ∷ ds) more h =
    rw (append_assoc (frame d) (frames ds) more, deframe-frame d (frames ds ++ more) h.0)
      (rw (deframe-frames ds more h.1))

pending_bounded :
    (n : ℕ) (buf : List ℕ)
    → length buf < n
    → (deframe buf).status ≡ waiting
    → deframe (deframe buf).rest ≡ stopped (deframe buf).rest waiting
pending_bounded zero buf h w = absurd (omega arith)
pending_bounded (suc n) [] h w = rw deframe_nil deframe_nil
pending_bounded (suc n) (b ∷ []) h w = rw (deframe_one b) (deframe_one b)
pending_bounded (suc n) (high ∷ low ∷ body) h w = ground (
  arith,
  deframe_lem high low body,
  pending_bounded n (drop (frame_length high low) body),
  length-drop (frame_length high low) body,
)

-- What is left in the buffer holds no whole frame.
pub deframe-rest :
    (buf : List ℕ)
    → (deframe buf).status ≡ waiting
    → deframe (deframe buf).rest ≡ stopped (deframe buf).rest waiting
deframe-rest buf w = pending_bounded (suc (length buf)) buf (omega arith) w

-- Two stops of the loop, by what comes after them.
pub deframe-append_waiting :
    (xs ys : List ℕ)
    → (deframe xs).status ≡ waiting
    → deframe (xs ++ ys) ≡ deliver_all (deframe xs).datagrams (deframe ((deframe xs).rest ++ ys))
unfolding resume
deframe-append_waiting xs ys w = deframe-append xs ys ∙ rw (w, resume) refl

pub deframe-append_bad :
    (xs ys : List ℕ)
    → (deframe xs).status ≡ bad_frame
    → (deframe (xs ++ ys)).datagrams ≡ (deframe xs).datagrams
unfolding resume
deframe-append_bad xs ys w =
    ap (λ (r : Drained). r.datagrams) (deframe-append xs ys) ∙ rw (w, resume) refl

pub bad_stays :
    (xs ys : List ℕ) → (deframe xs).status ≡ bad_frame → (deframe (xs ++ ys)).status ≡ bad_frame
unfolding resume
bad_stays xs ys w = ap (λ (r : Drained). r.status) (deframe-append xs ys) ∙ rw (w, resume) w
