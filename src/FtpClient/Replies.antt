-- ===== src/FtpClient/Replies.antt =====
-- The replies of FTP-client-server/server/src/ftp_server.c as FTP-client-server/client/src/ftp_client.c
-- reads them.
use hust_network_programming.Base.{
  ℕ, ◌^◌, ◌<◌, ◌≡◌, refl, ap, true, [], ◌∷◌, ◌++◌, some, ltb, ◌==◌, arith, length, pos,
}
use hust_network_programming.CText.{Bytes, codes, strchr, before, Avoids}
use hust_network_programming.CText.Decimal.{int_text, decimal, scan_int-decimal, Ends}
use hust_network_programming.Outcome.{done}
use hust_network_programming.FtpServer.Transfer.{pasv_response, high_byte, low_byte}
use hust_network_programming.FtpServer.{pwd_response}
use hust_network_programming.FtpClient.{path_of, path_after}
use hust_network_programming.FtpClient.Data.{
  Address, scan_after, scan_address, address_of, data_port,
}
use hust_network_programming.Base.{◌+◌, length-append}
use hust_network_programming.Outcome.{fit, fit-done}
use hust_network_programming.System.{Os, World, sent}
use hust_network_programming.FtpServer.{ClientSession, handle_pwd}

-- A separator and a printed number.
scan_after-decimal :
    (c n : ℕ) (rest : Bytes)
    → n < 2 ^ 31
    → Ends rest
    → scan_after c (c ∷ (decimal n ++ rest)) ≡ done (some (pos n, rest))
unfolding scan_after
scan_after-decimal c n rest small h =
    let same : (c == c) ≡ true = ground arith in rw same (scan_int-decimal n rest small h)

-- The address as the server prints it, from the parenthesis on.
abbrev printed_address : (a b c d e f : ℕ) → Bytes → Bytes
printed_address a b c d e f rest =
    b'('
    ∷ (decimal a
        ++ b','
          ∷ (decimal b
              ++ b','
                ∷ (decimal c
                    ++ b',' ∷ (decimal d ++ b',' ∷ (decimal e ++ b',' ∷ (decimal f ++ rest))))))

scan_address-printed :
    (a b c d e f : ℕ) (rest : Bytes)
    → a < 2 ^ 31
    → b < 2 ^ 31
    → c < 2 ^ 31
    → d < 2 ^ 31
    → e < 2 ^ 31
    → f < 2 ^ 31
    → Ends rest
    → scan_address (printed_address a b c d e f rest)
      ≡ done
          (some (record { h1 = pos a; h2 = pos b; h3 = pos c; h4 = pos d; p1 = pos e; p2 = pos f }))
unfolding scan_address
scan_address-printed a b c d e f rest ha hb hc hd he hf h =
    rw
      (scan_after-decimal b'(' a
        (b','
          ∷ (decimal b
              ++ b','
                ∷ (decimal c
                    ++ b',' ∷ (decimal d ++ b',' ∷ (decimal e ++ b',' ∷ (decimal f ++ rest))))))
        ha refl)
      (rw
        (scan_after-decimal b',' b
          (b','
            ∷ (decimal c ++ b',' ∷ (decimal d ++ b',' ∷ (decimal e ++ b',' ∷ (decimal f ++ rest)))))
          hb refl)
        (rw
          (scan_after-decimal b',' c
            (b',' ∷ (decimal d ++ b',' ∷ (decimal e ++ b',' ∷ (decimal f ++ rest)))) hc refl)
          (rw (scan_after-decimal b',' d (b',' ∷ (decimal e ++ b',' ∷ (decimal f ++ rest))) hd refl)
            (rw (scan_after-decimal b',' e (b',' ∷ (decimal f ++ rest)) he refl)
              (rw (scan_after-decimal b',' f rest hf h) refl)))))

-- The server's reply is a fixed text, and then the address.
pasv_response-printed :
    (a b c d port : ℕ)
    → strchr b'(' (pasv_response (pos a, pos b, pos c, pos d) port)
      ≡ some (printed_address a b c d (high_byte port) (low_byte port) (codes ")\r\n"))
unfolding pasv_response int_text codes
pasv_response-printed a b c d port = refl

-- The two bytes make up the port.
data_port-bytes :
    (a b c d port : ℕ)
    → port < 65536
    → data_port (record {
      h1 = pos a;
      h2 = pos b;
      h3 = pos c;
      h4 = pos d;
      p1 = pos (high_byte port);
      p2 = pos (low_byte port);
    })
      ≡ done (pos port)
unfolding data_port
data_port-bytes a b c d port h = ground arith

-- A byte that a text avoids is found behind it.
strchr-append : (c : ℕ) (s rest : Bytes) → Avoids c s → strchr c (s ++ (c ∷ rest)) ≡ some (c ∷ rest)
strchr-append c [] rest h = ground arith
strchr-append c (x ∷ s) rest h = rw h.0 (strchr-append c s rest h.1)

before-Avoids : (c : ℕ) (s rest : Bytes) → Avoids c s → before (λ x. x == c) (s ++ (c ∷ rest)) ≡ s
before-Avoids c [] rest h = ground arith
before-Avoids c (x ∷ s) rest h = rw h.0 (ap (λ t. x ∷ t) (before-Avoids c s rest h.1))

-- The text behind the name.
abbrev behind : Bytes
behind = codes " is current directory\r\n"

quote-pwd_response :
    (dir : Bytes) → strchr b'"' (pwd_response dir) ≡ some (b'"' ∷ (dir ++ b'"' ∷ behind))
unfolding codes
quote-pwd_response dir = refl

-- What the client reads from the text of the reply.
path_of-text :
    (dir : Bytes)
    → Avoids b'"' dir
    → length dir < 512
    → path_of (pwd_response dir) ≡ done (some dir)
unfolding path_of
path_of-text dir h short =
    let fits : ltb (length dir) 512 ≡ true = ground arith in
    rw (quote-pwd_response dir) (
      rw (path_after, strchr-append b'"' dir behind h)
        (rw (before-Avoids b'"' dir behind h) (rw fits refl)))

length-pwd_response : (dir : Bytes) → length (pwd_response dir) ≡ length dir + 29
unfolding codes
length-pwd_response dir = omega (arith, length-append dir (b'"' ∷ behind))

-- In a session that is logged in, in a directory whose path has less than 483 bytes and no quote, PWD
-- makes one call, which sends a reply, and leaves the session as it was; and the client reads from that
-- reply the directory of the session.
pub path_of-pwd_response :
    (os : Os) (w : World ClientSession)
    → w.state.logged_in ≡ true
    → Avoids b'"' w.state.current_dir
    → length w.state.current_dir < 483
    → (reply : Bytes) × (handle_pwd os w
        ≡ done (
          tt,
          record w {
            history =
                sent w.state.ctrl_socket reply (os.send w.history w.state.ctrl_socket reply)
                ∷ w.history;
          },
        ))
      × (path_of reply ≡ done (some w.state.current_dir))
unfolding handle_pwd
path_of-pwd_response os w login h short =
    let dir = w.state.current_dir in
    let fits : fit 512 (pwd_response dir) ≡ done (pwd_response dir) =
      fit-done 512 (pwd_response dir) (omega (arith, short, length-pwd_response dir)) in
    (pwd_response dir, rw (login, fits) refl, path_of-text dir h (omega (arith, short)))

-- For a server address of four numbers below 2^31 and a port below 2^16: the client reads from the
-- server's reply to PASV the four numbers and the two bytes of the port, and the port that it then
-- connects to is the port that the server announced.
pub address_of-pasv_response :
    (a b c d port : ℕ)
    → a < 2 ^ 31
    → b < 2 ^ 31
    → c < 2 ^ 31
    → d < 2 ^ 31
    → port < 65536
    → (r : Address) × (address_of (pasv_response (pos a, pos b, pos c, pos d) port) ≡ done (some r))
      × (r ≡ record {
        h1 = pos a;
        h2 = pos b;
        h3 = pos c;
        h4 = pos d;
        p1 = pos (high_byte port);
        p2 = pos (low_byte port);
      })
      × (data_port r ≡ done (pos port))
unfolding address_of codes
address_of-pasv_response a b c d port ha hb hc hd hport = (
  record {
    h1 = pos a;
    h2 = pos b;
    h3 = pos c;
    h4 = pos d;
    p1 = pos (high_byte port);
    p2 = pos (low_byte port);
  },
  rw (pasv_response-printed a b c d port) (
      scan_address-printed a b c d (high_byte port) (low_byte port) (codes ")\r\n") ha hb hc hd
        (omega arith) (omega arith) refl),
  refl,
  data_port-bytes a b c d port hport,
)
