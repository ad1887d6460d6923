-- ===== src/Rtp/Channel.antt =====
-- A channel between the two ends of project-7/prj7/rtp.c that damages packets, what either end sees
-- of it, and the sender over it.
use da_bus.Base.{ℕ, ◌≡◌, ◌≢◌, refl, ap, ◌∙◌, Option, some, List, [], ◌∷◌, ◌⊎◌}
use da_bus.Rtp.{
  Packet, Sending, sent, sends, await_response, send_packets, build_ack, build_nack, checksum,
  data_type, last_data,
}

-- The transmissions of one packet: those that arrive damaged, and then a good one.
pub record Trip : Type 0 where
  pub damaged : List Packet
  pub packet : Packet

-- A damaged packet still shows as a data packet of a possible length, but its checksum is wrong.
pub record IsDamaged (p : Packet) : Type 0 where
  pub typed : (p.type ≡ data_type) ⊎ (p.type ≡ last_data)
  pub found : ℕ
  pub computed : checksum p.payload p.payload_length ≡ some found
  pub wrong : p.checksum ≢ found

abbrev pub AllDamaged : List Packet → Type 0
AllDamaged [] = Unit
AllDamaged (p ∷ ps) = IsDamaged p × AllDamaged ps

abbrev pub AllTrips : List Trip → Type 0
AllTrips [] = Unit
AllTrips (t ∷ ts) = AllDamaged t.damaged × AllTrips ts

abbrev pub packets : List Trip → List Packet
packets [] = []
packets (t ∷ ts) = t.packet ∷ packets ts

-- What arrives at the receiver, before `env` does.
abbrev pub arrive : List Packet → List (Option Packet) → List (Option Packet)
arrive [] env = env
arrive (p ∷ ps) env = some p ∷ arrive ps env

abbrev pub arrivals : List Trip → List (Option Packet) → List (Option Packet)
arrivals [] env = env
arrivals (t ∷ ts) env = arrive t.damaged (some t.packet ∷ arrivals ts env)

-- What the receiver answers: a NACK for each damaged packet, an ACK for each good one.
abbrev pub nacks : List Packet → List Packet → List Packet
nacks [] rest = rest
nacks (p ∷ ps) rest = build_nack ∷ nacks ps rest

abbrev pub answers : List Trip → List Packet
answers [] = []
answers (t ∷ ts) = nacks t.damaged (build_ack ∷ answers ts)

-- What the sender puts on the wire: each packet once for each time it arrives.
abbrev pub resend : Packet → List Packet → Sending → Sending
resend p [] s = sends p s
resend p (d ∷ ds) s = sends p (resend p ds s)

abbrev pub transmissions : List Trip → Sending → Sending
transmissions [] s = s
transmissions (t ∷ ts) s = resend t.packet t.damaged (transmissions ts s)

send_trip :
    (p : Packet) (ds ps rest : List Packet) (env : List (Option Packet))
    → send_packets (p ∷ ps) (arrive (nacks ds (build_ack ∷ rest)) env)
      ≡ resend p ds (send_packets ps (arrive rest env))
unfolding send_packets await_response
send_trip p [] [] rest env = refl
send_trip p [] (q ∷ qs) rest env = refl
send_trip p (d ∷ ds) ps rest env = ap (sends p) (send_trip p ds ps rest env)

-- Over any channel that damages packets as the trips say, the sender sends each packet once for
-- each of its NACKs and once more, in order, and gets to the end.
pub send_packets-transmissions :
    (ts : List Trip) (env : List (Option Packet))
    → send_packets (packets ts) (arrive (answers ts) env) ≡ transmissions ts (sent env)
unfolding send_packets
send_packets-transmissions [] env = refl
send_packets-transmissions (t ∷ ts) env =
    send_trip t.packet t.damaged (packets ts) (answers ts) env
    ∙ ap (resend t.packet t.damaged) (send_packets-transmissions ts env)
