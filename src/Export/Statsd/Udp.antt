-- ===== src/Export/Statsd/Udp.antt =====
-- src/export/statsd.rs: a UDP socket, where the operating system takes every datagram.
use mathlib.Core.List.{map-append}
use chalk_metrics.Export.Statsd.{Wire, udp, send_to, send_buffer, deliver}
use chalk_metrics.Export.Statsd.Batches.{Group, datagram, send_all}
use chalk_metrics.Prelude.{
  ℕ, ◌+◌, ◌≡◌, sym, ap, ◌∙◌, true, List, [], ◌∷◌, ◌++◌, map, append_assoc, append-nil, length,
  length-append, if◌then◌else◌, arith,
}
use chalk_metrics.Prelude.Text.{Str}

-- The operating system takes every datagram.
abbrev pub TakesAll : Wire → Type 0
TakesAll w = (n : ℕ) → w.takes n ≡ true

-- A wire over UDP behind more datagrams, all of them taken.
abbrev pub sent_more : List Str → Wire → Wire
sent_more ds w = record w {
  sent = w.sent ++ map (λ d. (0, d)) ds;
  attempts = w.attempts + length ds;
}

wire_path :
    (w : Wire) (a b : List (ℕ × Str)) (n m : ℕ)
    → a ≡ b
    → n ≡ m
    → record w { sent = a; attempts = n } ≡ record w { sent = b; attempts = m }
wire_path w a b n m p q =
    ap (λ x. record w { sent = x; attempts = n }) p
    ∙ ap (λ x. record w { sent = b; attempts = x }) q

pub sent_more-nil : (w : Wire) → sent_more [] w ≡ w
sent_more-nil w =
    wire_path w (w.sent ++ []) w.sent (w.attempts + 0) w.attempts (append-nil w.sent) (omega arith)

pub sent_more-append :
    (ds ds' : List Str) (w : Wire) → sent_more ds' (sent_more ds w) ≡ sent_more (ds ++ ds') w
sent_more-append ds ds' w =
    wire_path w ((w.sent ++ map (λ d. (0, d)) ds) ++ map (λ d. (0, d)) ds')
      (w.sent ++ map (λ d. (0, d)) (ds ++ ds')) (w.attempts + length ds + length ds')
      (w.attempts + length (ds ++ ds'))
      (append_assoc w.sent (map (λ d. (0, d)) ds) (map (λ d. (0, d)) ds')
        ∙ ap (λ x. w.sent ++ x) (sym (map-append (λ (d : Str). (0, d)) ds ds')))
      (omega (arith, length-append ds ds'))

-- Over UDP the datagrams are sent one after another.
pub send_all-udp :
    (gs : List Group) (w : Wire)
    → w.socket ≡ udp
    → TakesAll w
    → send_all send_buffer gs w ≡ sent_more (map datagram gs) w
unfolding send_buffer send_to deliver
send_all-udp [] w h t = sym (sent_more-nil w)
send_all-udp (g ∷ gs) w h t =
    let one : send_to w.socket (datagram g) w ≡ sent_more (datagram g ∷ []) w =
      ap (λ x. send_to x (datagram g) w) h
      ∙ ap
          (λ x. record w {
            sent = if x then w.sent ++ (0, datagram g) ∷ [] else w.sent;
            attempts = w.attempts + 1;
          })
          (t w.attempts) in
    ap (send_all send_buffer gs) one
    ∙ send_all-udp gs (sent_more (datagram g ∷ []) w) h t
    ∙ sent_more-append (datagram g ∷ []) (map datagram gs) w
