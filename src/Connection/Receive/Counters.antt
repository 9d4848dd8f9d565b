-- ===== src/Connection/Receive/Counters.antt =====
-- rtmpconnection.cpp, handleRead: the counter of received bytes around 2 ^ 32.
use tvie_rtmp.Base.{
  ℕ, ◌+◌, ◌-◌, ◌^◌, ◌≤◌, ◌<◌, ◌≡◌, inl, inr, true, false, Bool-cases, arith, ltb, leb,
  if◌then◌else◌,
}
use tvie_rtmp.Connection.{Connection}
use tvie_rtmp.Connection.Receive.{word, count_bytes}

-- `bytesReceived_ - ackBytes_`, as the code computes it.
abbrev pub unacknowledged : {A : Type 0} → Connection A → ℕ
unacknowledged c = word (c.bytes_received + 2 ^ 32 - c.ack_bytes)

passed :
    (r a n : ℕ)
    → a ≤ r
    → r < 2 ^ 32
    → r + n < 2 ^ 32 + a
    → 2 ^ 32 ≤ r + n
    → word (word (word (r + n) + (2 ^ 32 - 1 - a)) + 2 ^ 32 - 0) ≡ word (r + 2 ^ 32 - a) + n - 1
passed r a n le small fits over =
    let counted : word (r + n) ≡ r + n - 2 ^ 32 = omega arith in rw counted (omega arith)

not_passed :
    (r a n : ℕ)
    → a ≤ r
    → r + n < 2 ^ 32
    → word (word (r + n) + 2 ^ 32 - a) ≡ word (r + 2 ^ 32 - a) + n
not_passed r a n le under =
    let counted : word (r + n) ≡ r + n = omega arith in rw counted (omega arith)

-- Where the bytes that are not acknowledged stay fewer than 2 ^ 32, `n` more received bytes are `n`
-- more of them, but one less if the counter passes 2 ^ 32.
pub count_bytes_exact :
    {A : Type 0} (n : ℕ) (c : Connection A)
    → c.ack_bytes ≤ c.bytes_received
    → c.bytes_received < 2 ^ 32
    → c.bytes_received + n < 2 ^ 32 + c.ack_bytes
    → unacknowledged (count_bytes n c) ≡ (
        if leb (2 ^ 32) (c.bytes_received + n)
        then unacknowledged c + n - 1
        else unacknowledged c + n)
unfolding count_bytes
count_bytes_exact n c le small fits = elim (Bool-cases (leb (2 ^ 32) (c.bytes_received + n))) [
  | inl passes ↦
      let over : ltb (word (c.bytes_received + n)) c.ack_bytes ≡ true = ground arith in
      rw (passes, over) (passed c.bytes_received c.ack_bytes n le small fits (ground arith))
  | inr below ↦
      let under : ltb (word (c.bytes_received + n)) c.ack_bytes ≡ false = ground arith in
      rw (below, under) (not_passed c.bytes_received c.ack_bytes n le (ground arith))
]
