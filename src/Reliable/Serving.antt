-- ===== src/Reliable/Serving.antt =====
-- our-course/labs/lab10-distributed/solutions/reliable.c: what holds of the server and its answers.
use ia_operating_systems.Base.{
  Each, ℕ, zero, suc, ◌+◌, ◌%◌, ◌^◌, ◌≤◌, ◌<◌, ◌≡◌, ◌⊎◌, inl, inr, true, if◌then◌else◌, Option,
  none, some, List, [], ◌∷◌, ◌++◌, arith, refl, ap, ap₂, sym, ◌∙◌, subst, dec_lt, ℕ_discrete,
  Bool-cases,
}
use ia_operating_systems.Reliable.Packet.{Packet}
use ia_operating_systems.Reliable.Server.{Server, ack, serve_packet}
use ia_operating_systems.Reliable.Client.{Setup, packet_of}
use ia_operating_systems.Reliable.System.{In}
use ia_operating_systems.Reliable.Answers.{IsSetup, message, on_data, on_fin, serve-data, serve-fin}

-- The first `k` messages.
abbrev pub messages : Setup → ℕ → List (List ℕ)
messages p zero = []
messages p (suc k) = messages p k ++ message p k ∷ []

pub Each-In : (P : Packet → Type 0) (ps : List Packet) (q : Packet) → Each P ps → In q ps → P q
Each-In P [] q v i = elim i [ ]
Each-In P (x ∷ ps) q v (inl e) = subst P (sym e) v.0
Each-In P (x ∷ ps) q v (inr i) = Each-In P ps q v.1 i

pub record IsServer (p : Setup) (s : Server) : Type 0 where
  pub app : s.app ≡ messages p s.expected
  pub delivered : s.delivered ≡ s.expected
  pub within : s.expected ≤ p.n
  pub fin : s.fin_seen ≡ true → s.fin_seq ≡ p.n

-- A server goes on from another state.
pub record Later (s t : Server) : Type 0 where
  pub further : s.expected ≤ t.expected
  pub closed : s.fin_seen ≡ true → t.fin_seen ≡ true

-- An acknowledgement that the server may have sent.
abbrev pub IsAck : Setup → (ℕ → ℕ) → Server → Packet → Type 0
IsAck p storage s pkt =
    (q : ℕ) × (pkt ≡ ack storage q)
    × (q < 2 ^ 32)
    × ((q < s.expected) ⊎ ((s.fin_seen ≡ true) × (q ≡ p.n)))

abbrev pub FromClient : Setup → Packet → Type 0
FromClient p pkt = (j : ℕ) × (pkt ≡ packet_of p j)

abbrev pub MaybeAck : Setup → (ℕ → ℕ) → Server → Option Packet → Type 0
MaybeAck p storage s none = Unit {0}
MaybeAck p storage s (some pkt) = IsAck p storage s pkt

-- What a round of the server from `s` has to do.
abbrev pub Serves : Setup → (ℕ → ℕ) → Server → Server × Option Packet → Type 0
Serves p storage s r = IsServer p r.0 × Later s r.0 × MaybeAck p storage r.0 r.1

pub Later-refl : (s : Server) → Later s s
Later-refl s = record { further = omega arith; closed = λ e. e }

pub IsAck-kept :
    (p : Setup) (storage : ℕ → ℕ) {s t : Server} (q : Packet)
    → Later s t
    → IsAck p storage s q
    → IsAck p storage t q
IsAck-kept p storage q l (k, e, small, inl lt) = (k, e, small, inl (omega (arith, l.further)))
IsAck-kept p storage q l (k, e, small, inr (f, g)) = (k, e, small, inr (l.closed f, g))

module _ (p : Setup) (v : IsSetup p) (storage : ℕ → ℕ) (s : Server) (w : IsServer p s) where
  pub stays : Serves p storage s (s, none)
  stays = (w, Later-refl s, tt)

  delivers : (i : ℕ) → i < p.n → i ≡ s.expected → Serves p storage s (on_data p v storage s i)
  delivers i lt e = subst (Serves p storage s) (sym (first e)) (
    record {
      app = ap₂ (λ xs k. xs ++ message p k ∷ []) w.app e ∙ ap (messages p) (sym next);
      delivered = omega (arith, w.delivered, next);
      within = omega (arith, next);
      fin = w.fin;
    },
    record { further = omega (arith, next); closed = λ f. f },
    (i, refl, omega (arith, v.few), inl (omega (arith, next))),
  )
    where
      next : (s.expected + 1) % 2 ^ 32 ≡ suc s.expected
      next = omega (arith, v.few)

      first :
          i ≡ s.expected
          → on_data p v storage s i ≡ (
            record s {
              expected = (s.expected + 1) % 2 ^ 32;
              delivered = s.delivered + 1;
              app = s.app ++ message p i ∷ [];
            },
            some (ack storage i),
          )
      first e = ground arith

  repeats : (i : ℕ) → i < p.n → i < s.expected → Serves p storage s (on_data p v storage s i)
  repeats i lt old = subst (Serves p storage s) (sym again) (
    record { app = w.app; delivered = w.delivered; within = w.within; fin = w.fin },
    record { further = omega arith; closed = λ f. f },
    (i, refl, omega (arith, v.few), inl old),
  )
    where
      again : on_data p v storage s i ≡ (record s { dups = s.dups + 1 }, some (ack storage i))
      again = ground arith

  ignores : (i : ℕ) → s.expected < i → on_data p v storage s i ≡ (s, none)
  ignores i lt = ground arith

  closes : Serves p storage s (on_fin p v storage s)
  closes = (
    record { app = w.app; delivered = w.delivered; within = w.within; fin = λ f. seq },
    record { further = omega arith; closed = λ f. refl },
    (p.n, ap (ack storage) seq, v.few, inr (refl, refl)),
  )
    where
      seq : (if s.fin_seen then s.fin_seq else p.n) ≡ p.n
      seq = elim (Bool-cases s.fin_seen) [ inl e ↦ rw e (w.fin e) | inr e ↦ rw e refl ]

  pub serves : (j : ℕ) → Serves p storage s (serve_packet storage s (packet_of p j))
  serves j = elim (dec_lt j p.n) [
    | yes lt ↦
        subst (Serves p storage s) (sym (serve-data p v storage s j lt))
          (elim (ℕ_discrete j s.expected) [
            | yes e ↦ delivers j lt e
            | no ne ↦ elim (dec_lt j s.expected) [
              | yes old ↦ repeats j lt old
              | no new ↦ subst (Serves p storage s) (sym (ignores j (omega arith))) stays
            ]
          ])
    | no ge ↦ subst (Serves p storage s) (sym (serve-fin p v storage s j (omega arith))) closes
  ]
