-- ===== src/FtpServer/Ports.antt =====
-- The passive ports that sessions start from.
use hust_network_programming.Base.{
  ℕ, zero, suc, ◌+◌, ◌*◌, ◌%◌, ◌<◌, ◌≡◌, ◌≢◌, arith, ltb, some, get_elem?, if◌then◌else◌, ap, ◌∙◌,
  sym,
}
use hust_network_programming.FtpServer.Thread.{take_port}
use hust_network_programming.FtpServer.Main.{session_ports}

-- The ports run through 501 multiples of 100 and begin again.
session_ports_from :
    (n k i : ℕ)
    → k < 501
    → i < n
    → get_elem? (session_ports n (10000 + 100 * k)) i ≡ some (10000 + 100 * ((k + i) % 501))
unfolding session_ports take_port
session_ports_from zero k i h l = absurd (omega arith)
session_ports_from (suc n) k zero h l = ap some (omega arith)
session_ports_from (suc n) k (suc i) h l =
    let step : (if ltb 60000 (10000 + 100 * k + 100) then 10000 else 10000 + 100 * k + 100)
        ≡ 10000 + 100 * ((k + 1) % 501) =
      ground arith in
    rw step
      (session_ports_from n ((k + 1) % 501) i (omega arith) (omega arith) ∙ ap some (omega arith))

-- The session with number `i`, from 0, starts at one of the ports 10000, 10100, …, 60000.
session_ports_lem :
    (n i : ℕ) → i < n → get_elem? (session_ports n 10000) i ≡ some (10000 + 100 * (i % 501))
session_ports_lem n i l = session_ports_from n 0 i (omega arith) l ∙ ap some (omega arith)

-- Of any 501 sessions that follow one another, no two start from the same passive port.
pub session_ports_differ :
    (n i j p q : ℕ)
    → i < j
    → j < i + 501
    → j < n
    → get_elem? (session_ports n 10000) i ≡ some p
    → get_elem? (session_ports n 10000) j ≡ some q
    → p ≢ q
session_ports_differ n i j p q a b l e f =
    let r : some p ≡ some (10000 + 100 * (i % 501)) = sym e ∙ session_ports_lem n i (omega arith) in
    let s : some q ≡ some (10000 + 100 * (j % 501)) = sym f ∙ session_ports_lem n j (omega arith) in
    let r' : p ≡ 10000 + 100 * (i % 501) = cc r in
    let s' : q ≡ 10000 + 100 * (j % 501) = cc s in omega (arith, r', s')
