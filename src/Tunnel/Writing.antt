-- ===== src/Tunnel/Writing.antt =====
-- The send loops of Server/src/Tunnel.cpp and Server/tunnel-client/crossover-tunnel.c.
use crossover.Prelude.{
  ℕ, zero, suc, ◌≡◌, ◌↔◌, refl, sym, ap, ◌∙◌, Bool, true, false, List, [], ◌∷◌, ◌++◌, map, take,
  drop, Option, none, some, append_assoc, append-nil, take-append-drop,
}
use crossover.Tunnel.Framing.{frame, frames}
use crossover.Tunnel.Pump.{
  SendResult, sent, interrupted, would_block, failed, write_all, UdpRead, go_on, forward_udp,
}
use crossover.Tunnel.Client.{send_all}

-- A prefix of the bytes went out, and `done` says whether it was all of them.
abbrev pub Prefix : List ℕ → List ℕ → Type 0 → Type 0
Prefix out bytes done = (left : List ℕ) × (out ++ left ≡ bytes) × (done ↔ (left ≡ []))

-- Whatever the single sends return, WriteAll has sent a prefix of the data, and it returns true
-- exactly when it has sent all of it.
pub write_all_lem :
    (bytes : List ℕ) (rs : List SendResult)
    → Prefix (write_all bytes rs).bytes bytes ((write_all bytes rs).result ≡ some true)
unfolding write_all
write_all_lem [] rs = ([], refl, (λ _. refl, λ _. refl))
write_all_lem (b ∷ left) [] = (b ∷ left, refl, (λ e. cc, λ e. cc))
write_all_lem (b ∷ left) (sent zero ∷ rs) = (b ∷ left, refl, (λ e. cc, λ e. cc))
write_all_lem (b ∷ left) (sent (suc n) ∷ rs) =
    let (rest, e, done) = write_all_lem (drop (suc n) (b ∷ left)) rs in
    (
      rest,
      append_assoc (take (suc n) (b ∷ left)) _ rest
          ∙ ap (◌++◌ (take (suc n) (b ∷ left))) e
          ∙ take-append-drop (suc n) (b ∷ left),
      done,
    )
write_all_lem (b ∷ left) (interrupted ∷ rs) = write_all_lem (b ∷ left) rs
write_all_lem (b ∷ left) (would_block true ∷ rs) = write_all_lem (b ∷ left) rs
write_all_lem (b ∷ left) (would_block false ∷ rs) = (b ∷ left, refl, (λ e. cc, λ e. cc))
write_all_lem (b ∷ left) (failed ∷ rs) = (b ∷ left, refl, (λ e. cc, λ e. cc))

-- The client's send loop has sent a prefix of the frame, and goes on exactly when it has sent all
-- of it.
pub send_all_lem :
    (bytes ws : List ℕ) → Prefix (send_all bytes ws).0 bytes ((send_all bytes ws).1 ≡ true)
unfolding send_all
send_all_lem [] ws = ([], refl, (λ _. refl, λ _. refl))
send_all_lem (b ∷ left) [] = (b ∷ left, refl, (λ e. cc, λ e. cc))
send_all_lem (b ∷ left) (zero ∷ ws) = (b ∷ left, refl, (λ e. cc, λ e. cc))
send_all_lem (b ∷ left) (suc n ∷ ws) =
    let (rest, e, done) = send_all_lem (drop (suc n) (b ∷ left)) ws in
    (
      rest,
      append_assoc (take (suc n) (b ∷ left)) _ rest
          ∙ ap (◌++◌ (take (suc n) (b ∷ left))) e
          ∙ take-append-drop (suc n) (b ∷ left),
      done,
    )

abbrev pub datagrams : List UdpRead → List (List ℕ)
datagrams = map λ u. u.datagram

left_empty : (xs ys : List ℕ) → xs ++ ys ≡ [] → xs ≡ []
left_empty [] ys h = refl
left_empty (x ∷ xs) ys h = cc

torn :
    (out whole tail : List ℕ) (done : Type 0)
    → ¬ done
    → Prefix out whole done
    → Prefix out (whole ++ tail) (false ≡ true)
torn out whole tail done not_done (left, e, i) = (
  left ++ tail,
  sym (append_assoc out left tail) ∙ ap (λ (l : List ℕ). l ++ tail) e,
  (λ f. cc, λ n. absurd (not_done (i.1 (left_empty left tail n)))),
)

go_on-Prefix :
    (out whole : List ℕ) (r : Option Bool) (m : List ℕ × Bool) (tail : List ℕ)
    → Prefix out whole (r ≡ some true)
    → Prefix m.0 tail (m.1 ≡ true)
    → Prefix (go_on out r m).0 (whole ++ tail) ((go_on out r m).1 ≡ true)
go_on-Prefix out whole (some true) m tail (left, e, i) (rest, f, j) = (
  rest,
  append_assoc out m.0 rest
      ∙ ap (◌++◌ out) f
      ∙ ap (λ (l : List ℕ). l ++ tail) (sym (append-nil out) ∙ ap (◌++◌ out) (sym (i.0 refl)) ∙ e),
  j,
)
go_on-Prefix out whole (some false) m tail p q = torn out whole tail _ (λ e. cc) p
go_on-Prefix out whole none m tail p q = torn out whole tail _ (λ e. cc) p

-- What the server writes to a client is a prefix of the frames of the datagrams it read, in order,
-- and the connection goes on exactly when they all went out: no frame is skipped, and none is left
-- torn in a connection that stays open.
pub forward_udp_lem :
    (us : List UdpRead)
    → Prefix (forward_udp us).0 (frames (datagrams us)) ((forward_udp us).1 ≡ true)
unfolding forward_udp
forward_udp_lem [] = ([], refl, (λ _. refl, λ _. refl))
forward_udp_lem (u ∷ us) =
    go_on-Prefix _ (frame u.datagram) (write_all (frame u.datagram) u.sends).result (forward_udp us)
      (frames (datagrams us)) (write_all_lem (frame u.datagram) u.sends) (forward_udp_lem us)
