-- ===== src/WorldServer/Heartbeat.antt =====
-- `auth_server_heartbeat` of services/world/src/worldserver.rs: the datagram that it sends to the auth
-- server, and its arrival there.
use azerust.Prelude.{
  ℕ, ◌%◌, ◌^◌, ◌<◌, ◌≡◌, refl, ap, ◌∙◌, some, List, [], ◌++◌, length, arith, take, drop,
  take-append, drop-append, sym, ◌==◌, if◌then◌else◌,
}
use azerust.Bincode.{Bincode, deserialize, finish}
use azerust.AuthServer.Heartbeats.Liveness.{last_seen, last_seen-insert}
use mathlib.Core.List.{append-nil}
use azerust.AuthServer.Heartbeats.{Heartbeats, noted, insert, receive, get_heartbeat, filled}
use azerust.AuthServer.Message.RoundTrip.{then_read, get_int-put_int, get_last_int, finish_all}

filled_whole :
    (datagram buffer : List ℕ)
    → length datagram ≡ 6
    → length buffer ≡ 6
    → filled datagram buffer ≡ datagram
unfolding filled
filled_whole datagram buffer h full =
    let start : take 6 datagram ≡ datagram =
      ap (take 6) (sym (append-nil datagram)) ∙ take-append 6 datagram [] h in
    let end : drop 6 buffer ≡ [] =
      ap (drop 6) (sym (append-nil buffer)) ∙ drop-append 6 buffer [] full in
    rw (start, h, end, append-nil datagram)

module _ (e : Bincode) where
  open e use {put_int}

  -- the realm's number as u8; the source sends a population of 0
  unfoldable pub heartbeat : ℕ → ℕ → List ℕ
  heartbeat id population = put_int 1 0 ++ (put_int 1 (id % 2 ^ 8) ++ put_int 4 population)

  heartbeat_lem :
      (id population : ℕ)
      → population < 2 ^ 32
      → deserialize e (get_heartbeat e) (heartbeat id population) ≡ some (0, id % 2 ^ 8, population)
  unfolding deserialize get_heartbeat heartbeat
  heartbeat_lem id population h =
      ap (finish e) (
        then_read _ (get_int-put_int e 1 0 _ (omega arith))
        ∙ then_read _ (get_int-put_int e 1 (id % 2 ^ 8) _ (omega arith))
        ∙ then_read _ (get_last_int e 4 population h))
      ∙ finish_all e _

  length-heartbeat : (id population : ℕ) → length (heartbeat id population) ≡ 6
  unfolding heartbeat
  length-heartbeat id population =
      rw (e.put_int_lem 1 0, e.put_int_lem 1 (id % 2 ^ 8), e.put_int_lem 4 population) refl

  noted_lem :
      (id population now : ℕ) (buffer datagram : List ℕ) (h : Heartbeats)
      → population < 2 ^ 32
      → filled datagram h.buffer ≡ heartbeat id population
      → receive e now (some datagram) h
        ≡ record { buffer = heartbeat id population; seen = insert (id % 2 ^ 8) now h.seen }
  unfolding receive noted
  noted_lem id population now buffer datagram h fits same =
      rw (same, heartbeat_lem id population fits)

  -- A heartbeat of a world server, whatever the last datagram was, sets the time of its realm, whose
  -- number is taken modulo 256, and of no other.
  pub heartbeat_noted :
      (id population now k : ℕ) (h : Heartbeats)
      → population < 2 ^ 32
      → length h.buffer ≡ 6
      → last_seen k (receive e now (some (heartbeat id population)) h).seen
        ≡ (if id % 2 ^ 8 == k then some now else last_seen k h.seen)
  heartbeat_noted id population now k h fits full =
      let arrived =
        noted_lem id population now h.buffer (heartbeat id population) h fits
          (filled_whole (heartbeat id population) h.buffer (length-heartbeat id population) full) in
      ap (λ (r : Heartbeats). last_seen k r.seen) arrived
      ∙ last_seen-insert k (id % 2 ^ 8) now h.seen

  -- After a heartbeat, an empty datagram from anyone is taken for that heartbeat again, at its own
  -- time.
  pub empty_datagram_repeats :
      (id population now later k : ℕ) (h : Heartbeats)
      → population < 2 ^ 32
      → length h.buffer ≡ 6
      → last_seen k
          (receive e later (some []) (receive e now (some (heartbeat id population)) h)).seen
        ≡ (if id % 2 ^ 8 == k then some later else last_seen k h.seen)
  unfolding filled receive
  empty_datagram_repeats id population now later k h fits full =
      let h' = receive e now (some (heartbeat id population)) h in
      let arrived =
        noted_lem id population now h.buffer (heartbeat id population) h fits
          (filled_whole (heartbeat id population) h.buffer (length-heartbeat id population) full) in
      let again =
        noted_lem id population later h'.buffer [] h' fits
          (ap (λ (r : Heartbeats). r.buffer) arrived) in
      ap (λ (r : Heartbeats). last_seen k r.seen) again
      ∙ last_seen-insert k (id % 2 ^ 8) later h'.seen
      ∙ ground (arith, heartbeat_noted id population now k h fits full)
